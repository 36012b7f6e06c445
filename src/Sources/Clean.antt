-- ===== src/Sources/Clean.antt =====
-- lemur/sources/cli.py: the removal of certificates that are not in use from their sources, with the
-- queries of lemur/certificates/service.py. Sources and destinations are named by their labels,
-- which are unique for sources.
pub mod Rows
use lemur.Prelude.{
  ℕ, String, ◌+◌, ◌-◌, ◌*◌, Bool, true, false, not, ◌&&◌, Option, none, some, List, [], ◌∷◌, ◌++◌,
  ◌==◌, nat_eq, string_eq, if◌then◌else◌, select, contains, leb,
}
use lemur.Prelude.Int.{day}
use lemur.Prelude.Table.{modify}

-- The numbers of the endpoints that have the certificate stand with it.
pub record Certificate : Type 0 where
  pub id : ℕ
  pub not_after : ℕ
  pub date_created : ℕ
  pub endpoints : List ℕ
  pub sources : List String
  pub destinations : List String

-- `has_clean` is whether the plugin of a source has the method, `clean` whether its call for a
-- certificate returns, `midnight` the start of the day of a moment, as its date is compared.
pub record Site : Type 0 where
  pub now : ℕ
  pub midnight : ℕ → ℕ
  pub has_clean : (source : String) → Bool
  pub clean : (source : String) → (certificate : ℕ) → Bool

-- The table, and the calls of `clean` that returned.
pub record Db : Type 0 where
  pub certificates : List Certificate
  pub cleaned : List (String × ℕ)

abbrev pub certificate_id : Certificate → ℕ
certificate_id c = c.id

-- A certificate of that source that no endpoint has.
unfoldable pub is_unused : String → Certificate → Bool
is_unused label c = contains label c.sources && (elim c.endpoints [ [] ↦ true | _ ∷ _ ↦ false ])

-- The last test of a query.
abbrev pub Limit : Type 0
Limit = Site → Certificate → Bool

unfoldable pub expired : Limit
expired w c = leb c.not_after w.now

unfoldable pub expiring_in_days : ℕ → Limit
expiring_in_days days w c = not (leb (w.midnight (w.now + days * day)) c.not_after)

-- Fewer days than the clock has counted.
unfoldable pub issued_since_days : ℕ → Limit
issued_since_days days w c = not (leb c.date_created (w.midnight (w.now - days * day)))

unfoldable pub get_all_pending_cleaning :
    Limit → Site → String → List Certificate → List Certificate
get_all_pending_cleaning limit w label rows = select (λ c. is_unused label c && limit w c) rows

-- The loop that removes the destinations of a label from the list that it runs over, so that the one
-- behind a removed one is passed over.
unfoldable pub without_destination : String → List String → List String
without_destination label [] = []
without_destination label (d ∷ []) = if d == label then [] else d ∷ []
without_destination label (d ∷ next ∷ destinations) =
    let others = without_destination label (next ∷ destinations) in
    let skipped = without_destination label destinations in
    if d == label then next ∷ skipped else d ∷ others

-- A certificate without the source, after that loop.
unfoldable pub without : String → Certificate → Certificate
without label c = record c {
  sources = select (λ s. not (s == label)) c.sources;
  destinations = without_destination label c.destinations;
}

-- Where the plugin raises, nothing is changed.
unfoldable pub execute_clean : Site → (source : String) → Certificate → Db → Db
execute_clean w label c db =
    if w.clean label c.id
    then record db {
      certificates = modify certificate_id c.id (without label) db.certificates;
      cleaned = db.cleaned ++ ((label, c.id) ∷ []);
    }
    else db

unfoldable pub clean_all : Site → (source : String) → List Certificate → (commit : Bool) → Db → Db
clean_all w label [] commit db = db
clean_all w label (c ∷ certificates) commit db =
    clean_all w label certificates commit (if commit then execute_clean w label c db else db)

-- One round of the loop over the sources.
unfoldable pub clean_source : Limit → Site → (commit : Bool) → (source : String) → Db → Db
clean_source limit w commit label db =
    if w.has_clean label
    then clean_all w label (get_all_pending_cleaning limit w label db.certificates) commit db
    else db

unfoldable pub clean_sources : Limit → Site → (sources : List String) → (commit : Bool) → Db → Db
clean_sources limit w [] commit db = db
clean_sources limit w (label ∷ sources) commit db =
    clean_sources limit w sources commit (clean_source limit w commit label db)

unfoldable pub clean : Site → (sources : List String) → (commit : Bool) → Db → Db
clean w sources commit db = clean_sources expired w sources commit db

unfoldable pub clean_unused_and_expiring_within_days :
    Site → (sources : List String) → (days_to_expire : ℕ) → (commit : Bool) → Db → Db
clean_unused_and_expiring_within_days w sources days commit db =
    clean_sources (expiring_in_days days) w sources commit db

unfoldable pub clean_unused_and_issued_since_days :
    Site → (sources : List String) → (days_since_issuance : ℕ) → (commit : Bool) → Db → Db
clean_unused_and_issued_since_days w sources days commit db =
    clean_sources (issued_since_days days) w sources commit db
