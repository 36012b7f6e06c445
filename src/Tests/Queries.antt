-- ===== src/Tests/Queries.antt =====
-- Examples for windowed queries and for the validity of certificates.
use lemur.Prelude.{◌≤◌, ◌<◌, ◌+◌, ℕ, ◌≡◌, refl, arith, false, some, all, contains, nat_eq, [], ◌∷◌}
use lemur.Validity.{weekday, convert_validity_years, convert_validity_years_moves_sundays}
use lemur.Windows.{windowed_query}
use lemur.Windows.Cover.{ascending, ordered, windowed_query_is_query}

abbrev number : ℕ → ℕ
number n = n

windowed_query_is_query_example :
    windowed_query number 2 (1 ∷ 3 ∷ 4 ∷ 7 ∷ 9 ∷ []) (3 ∷ 7 ∷ 9 ∷ []) ≡ 3 ∷ 7 ∷ 9 ∷ []
unfolding ascending ordered all contains
windowed_query_is_query_example =
    windowed_query_is_query number 2 (1 ∷ 3 ∷ 4 ∷ 7 ∷ 9 ∷ []) (3 ∷ 7 ∷ 9 ∷ []) refl refl refl

-- 2026-06-28, day 20632, is a Sunday.
convert_validity_years_moves_sundays_example :
    (end : ℕ) × (convert_validity_years false (λ now years. 20632) 20267 (some 1)
      ≡ some (20267, end))
    × (weekday end ≡ 4)
    × (end ≤ 20632)
    × (20632 < end + 7)
unfolding weekday
convert_validity_years_moves_sundays_example =
    convert_validity_years_moves_sundays (λ now years. 20632) 20267 1 (omega arith) (omega arith)
