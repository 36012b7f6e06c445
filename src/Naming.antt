-- ===== src/Naming.antt =====
-- `get_sequence` and `get_or_increase_name` of lemur/certificates/models.py: the name of a new
-- certificate, on ASCII text.
pub mod Fresh
use lemur.Prelude.{
  ℕ, String, ◌+◌, Bool, true, false, not, Option, none, some, List, [], ◌∷◌, ◌==◌, nat_eq,
  string_eq, if◌then◌else◌, leb, select, contains,
}
use lemur.Prelude.Text.{join, len, split_at_last}

-- `int(text)` for text without a hyphen, none where it raises, `str(number)`, and
-- `ilike(text + "%")` of the database.
pub record Site : Type 0 where
  pub int : String → Option ℕ
  pub str : ℕ → String
  pub ilike : String → String → Bool

-- A last part of eight characters may be a date.
unfoldable pub get_sequence : Site → String → String × Option ℕ
get_sequence w name = elim (split_at_last b'-' name) [
  | none ↦ (name, none)
  | some (root, last) ↦ elim (w.int last) [
    | none ↦ (name, none)
    | some seq ↦ if len last == 8 then (name, none) else (root, some seq)
  ]
]

abbrev pub max_end : ℕ → Option ℕ → ℕ
max_end top none = top
max_end top (some n) = if leb top n then n else top

-- The loop over the certificates that were found: the root of the last one, and the largest number.
unfoldable pub scan : Site → List String → String × ℕ → String × ℕ
scan w [] s = s
scan w (name ∷ names) (root, top) =
    let (root', seq) = get_sequence w name in scan w names (root', max_end top seq)

abbrev pub next_name : Site → String × ℕ → String
next_name w (root, top) = join (root ∷ "-" ∷ w.str (top + 1) ∷ [])

abbrev pub with_serial : String → String → String
with_serial name serial = join (name ∷ "-" ∷ serial ∷ [])

-- `serial` is the serial number in upper case hexadecimal digits, `names` the names of the table.
unfoldable pub get_or_increase_name : Site → (name serial : String) → (names : List String) → String
get_or_increase_name w name serial names =
    let serial_name = with_serial name serial in
    let scanned = scan w (select (w.ilike serial_name) names) ((get_sequence w serial_name).0, 0) in
    if not (contains name names)
    then name
    else if not (contains serial_name names)
    then serial_name
    else next_name w scanned
