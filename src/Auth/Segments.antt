-- ===== src/Auth/Segments.antt =====
-- `bytes.split(sep, 1)` and `bytes.rsplit(sep, 1)`, which `fetch_token_header` cuts a token with.
use lemur.Prelude.{
  ℕ, ◌≡◌, refl, false, Option, none, some, List, [], ◌∷◌, ◌++◌, arith, ◌==◌, nat_eq, if◌then◌else◌,
  contains,
}

-- The parts before and after the first separator.
unfoldable pub split_first : ℕ → List ℕ → Option (List ℕ × List ℕ)
split_first d [] = none
split_first d (c ∷ cs) =
    let rest = split_first d cs in
    if c == d then some ([], cs) else elim rest [ none ↦ none | some (a, b) ↦ some (c ∷ a, b) ]

-- The parts before and after the last separator.
unfoldable pub split_last : ℕ → List ℕ → Option (List ℕ × List ℕ)
split_last d [] = none
split_last d (c ∷ cs) = elim (split_last d cs) [
  | some (a, b) ↦ some (c ∷ a, b)
  | none ↦ if c == d then some ([], cs) else none
]

pub split_first-append :
    (d : ℕ) (h rest : List ℕ)
    → contains d h ≡ false
    → split_first d (h ++ d ∷ rest) ≡ some (h, rest)
unfolding split_first contains
split_first-append d [] rest e = ground arith
split_first-append d (c ∷ h) rest e = ground (arith, split_first-append d h rest)

split_last-none : (d : ℕ) (s : List ℕ) → contains d s ≡ false → split_last d s ≡ none
unfolding split_last contains
split_last-none d [] e = refl
split_last-none d (c ∷ s) e = ground (arith, split_last-none d s)

pub split_last-append :
    (d : ℕ) (xs s : List ℕ) → contains d s ≡ false → split_last d (xs ++ d ∷ s) ≡ some (xs, s)
unfolding split_last
split_last-append d [] s e = ground (arith, split_last-none d s e)
split_last-append d (c ∷ xs) s e = ground (arith, split_last-append d xs s e)
