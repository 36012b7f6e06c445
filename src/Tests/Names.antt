-- ===== src/Tests/Names.antt =====
-- Examples for the names of certificates and for lemur/api_keys/views.py.
use Prim.Native.Char.{code}
use Prim.Native.String as S
use lemur.Prelude.{
  ℕ, zero, suc, String, ◌+◌, ◌≡◌, refl, false, Option, none, some, [], ◌∷◌, ◌==◌, nat_eq, string_eq,
  all, contains, select, if◌then◌else◌, arith,
}
use lemur.Prelude.Text.{starts, starts-concat, split_at_last}
use lemur.Naming.{Site, get_sequence, get_or_increase_name, scan}
use lemur.Naming.Fresh.{get_sequence_roundtrip, name_is_free}

-- A number in ones: 3 is "111".
ones : ℕ → String
ones zero = ""
ones (suc n) = S.◌∷◌ "1" (ones n)

count_ones : String → Option ℕ
count_ones S.[] = some 0
count_ones (S.◌∷◌ c s) =
    let rest = count_ones s in
    if code c == b'1' then (elim rest [ none ↦ none | some n ↦ some (n + 1) ]) else none

count_ones-ones : (n : ℕ) → count_ones (ones n) ≡ some n
unfolding count_ones ones
count_ones-ones zero = refl
count_ones-ones (suc n) = rw (count_ones-ones n) (ground arith)

ones_plain : (n : ℕ) → split_at_last b'-' (ones n) ≡ none
unfolding split_at_last ones
ones_plain zero = refl
ones_plain (suc n) = rw (ones_plain n) refl

site : Site
unfolding starts
site = record { int = count_ones; str = ones; ilike = starts }

get_sequence_roundtrip_example : get_sequence site "web-11" ≡ ("web", some 2)
unfolding site ones
get_sequence_roundtrip_example =
    get_sequence_roundtrip site "web" 2 (count_ones-ones 2) (ones_plain 2) refl

name_is_free_example :
    contains
      (get_or_increase_name site "web" "AB" ("web" ∷ "web-AB" ∷ "web-AB-1" ∷ []))
      ("web" ∷ "web-AB" ∷ "web-AB-1" ∷ [])
    ≡ false
unfolding site starts all select get_sequence scan split_at_last count_ones ones
name_is_free_example =
    name_is_free site "web" "AB" ("web" ∷ "web-AB" ∷ "web-AB-1" ∷ []) starts-concat count_ones-ones
      ones_plain refl refl
