-- ===== src/Validity.antt =====
-- `convert_validity_years` of lemur/common/missing.py, and `is_weekend` of lemur/common/utils.py.
-- A date is a count of days from 1970-01-01, a Thursday. The shift by years is the calendar's, a
-- parameter.
use lemur.Prelude.{
  ℕ, ◌≡◌, refl, ◌≤◌, ◌<◌, ◌+◌, ◌-◌, ◌%◌, Bool, true, false, not, ◌&&◌, ◌==◌, nat_eq, if◌then◌else◌,
  ltb, arith, Bool-cases, inl, inr, Option, none, some,
}

-- `date.weekday()`: 0 is Monday, 6 is Sunday.
unfoldable pub weekday : ℕ → ℕ
weekday date = (date + 3) % 7

unfoldable pub is_weekend : ℕ → Bool
is_weekend date = ltb 5 (weekday date)

-- The validity that the years stand for, none where the data has none.
unfoldable pub convert_validity_years :
    (allow_weekend : Bool) → (shift_years : ℕ → ℕ → ℕ) → (now : ℕ) → Option ℕ → Option (ℕ × ℕ)
convert_validity_years allow_weekend shift_years now none = none
convert_validity_years allow_weekend shift_years now (some years) =
    let end = shift_years now years in
    if years == 0
    then none
    else some (now, if not allow_weekend && is_weekend end then end - 2 else end)

sunday_back : (date : ℕ) → 2 ≤ date → (date + 3) % 7 ≡ 6 → (date - 2 + 3) % 7 ≡ 4
sunday_back date later h = omega (arith, later, h)

past_five : (date : ℕ) → ltb 5 ((date + 3) % 7) ≡ true → (date + 3) % 7 ≡ 6
past_five date h = ground (arith, h)

not_sunday : (date : ℕ) → ltb 5 ((date + 3) % 7) ≡ false → ((date + 3) % 7 == 6) ≡ false
not_sunday date h = ground (arith, h)

-- Where expiry on a weekend is not allowed, a validity that would end on a Sunday ends on a Friday,
-- and one that would end on any other day, a Saturday too, ends on a day of the same name; that day is
-- the last one of its name that is not later than the end asked for.
pub convert_validity_years_moves_sundays :
    (shift_years : ℕ → ℕ → ℕ) (now years : ℕ)
    → 1 ≤ years
    → 2 ≤ shift_years now years
    → (end : ℕ) × (convert_validity_years false shift_years now (some years) ≡ some (now, end))
      × (weekday end
          ≡ (if weekday (shift_years now years) == 6 then 4 else weekday (shift_years now years)))
      × (end ≤ shift_years now years)
      × (shift_years now years < end + 7)
unfolding convert_validity_years is_weekend weekday
convert_validity_years_moves_sundays shift_years now years some_years later =
    let date = shift_years now years in
    let asked : (years == 0) ≡ false = ground arith in
    elim (Bool-cases (ltb 5 ((date + 3) % 7))) [
      | inl sunday ↦ (
        date - 2,
        rw (asked, sunday) refl,
        rw (past_five date sunday) (sunday_back date later (past_five date sunday)),
        omega arith,
        omega (arith, later),
      )
      | inr other ↦
          (date, rw (asked, other) refl, rw (not_sunday date other) refl, omega arith, omega arith)
    ]
