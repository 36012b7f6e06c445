-- ===== src/Prelude/Table.antt =====
-- A table of the database: its rows, in the order of insertion, found by a test on a unique column.
use Prim.Native.Nat.{ℕ}
use mathlib.Core.Path.{◌≡◌, refl, ap}
use mathlib.Core.Bool.{Bool, true, false, not, ◌&&◌}
use mathlib.Core.Option.{Option, none, some}
use mathlib.Core.List.{List, [], ◌∷◌, ◌++◌, map}
use native.Mathlib.Omega.{arith}
use lemur.Prelude.Tests.{◌==◌, nat_eq, if◌then◌else◌, nat_beq_iff}
use lemur.Prelude.Lists.{select, contains}

-- `query.filter(test).scalar()` on a column that is unique.
unfoldable pub first {ℓ} : {A : Type ℓ} → (A → Bool) → List A → Option A
first test [] = none
first test (r ∷ rows) = if test r then some r else first test rows

pub first-append {ℓ} :
    {A : Type ℓ} (test : A → Bool) (xs ys : List A)
    → first test (xs ++ ys) ≡ elim (first test xs) [ some r ↦ some r | none ↦ first test ys ]
unfolding first
first-append test [] ys = refl
first-append test (x ∷ xs) ys = ground (arith, first-append test xs ys)

pub first_passes {ℓ} :
    {A : Type ℓ} (test : A → Bool) (rows : List A) {r : A}
    → first test rows ≡ some r
    → test r ≡ true
unfolding first
first_passes test [] e = cc
first_passes test (x ∷ rows) {r} e = ground (arith, first_passes test rows {r = r})

module _ {A : Type 0} (key : A → ℕ) where
  -- `database.get(Model, id)`
  unfoldable pub find : ℕ → List A → Option A
  find i rows = first (λ r. key r == i) rows

  -- The commit of a changed row.
  unfoldable pub put : A → List A → List A
  put row [] = []
  put row (r ∷ rows) = (if key r == key row then row else r) ∷ put row rows

  -- `database.delete(row)`
  unfoldable pub drop : ℕ → List A → List A
  drop i rows = select (λ r. not (key r == i)) rows

  pub find-put :
      (i : ℕ) (row : A) (rows : List A)
      → find i (put row rows) ≡ (
          if key row == i
          then (elim (find i rows) [ none ↦ none | some _ ↦ some row ])
          else find i rows)
  unfolding find put first
  find-put i row [] = ground arith
  find-put i row (r ∷ rows) = ground (arith, find-put i row rows)

  pub find-drop :
      (i j : ℕ) (rows : List A) → find j (drop i rows) ≡ (if i == j then none else find j rows)
  unfolding find drop first select
  find-drop i j [] = ground arith
  find-drop i j (r ∷ rows) = ground (arith, find-drop i j rows)

  pub find-key : (i : ℕ) (rows : List A) {r : A} → find i rows ≡ some r → key r ≡ i
  unfolding find
  find-key i rows {r} e = (nat_beq_iff (key r) i).0 (first_passes (λ x. key x == i) rows e)

-- A change of the row of that number.
unfoldable pub modify : {A : Type 0} → (A → ℕ) → ℕ → (A → A) → List A → List A
modify key i change [] = []
modify key i change (r ∷ rows) = (if key r == i then change r else r) ∷ modify key i change rows

pub find-modify :
    {A : Type 0} (key : A → ℕ) (i j : ℕ) (change : A → A) (rows : List A)
    → ((r : A) → key (change r) ≡ key r)
    → find key j (modify key i change rows) ≡ (
        if i == j
        then (elim (find key j rows) [ none ↦ none | some r ↦ some (change r) ])
        else find key j rows)
unfolding find first modify
find-modify key i j change [] h = ground arith
find-modify key i j change (r ∷ rows) h = ground (arith, h r, find-modify key i j change rows h)

-- Whether no number occurs twice, as in a primary key.
unfoldable pub distinct : List ℕ → Bool
distinct [] = true
distinct (i ∷ ids) = not (contains i ids) && distinct ids

pub same_contains : (i j : ℕ) (ids : List ℕ) → i ≡ j → contains i ids ≡ contains j ids
same_contains i j ids e = ap (λ n. contains n ids) e

-- The test of a row that was found.
abbrev pub passes : {A : Type 0} → (A → Bool) → Option A → Bool
passes p none = false
passes p (some r) = p r

module _ {A : Type 0} (key : A → ℕ) (p : A → Bool) where
  contains-select :
      (j : ℕ) (rows : List A)
      → contains j (map key rows) ≡ false
      → contains j (map key (select p rows)) ≡ false
  unfolding contains select
  contains-select j [] h = refl
  contains-select j (r ∷ rows) h = ground (arith, contains-select j rows)

  pub distinct-select :
      (rows : List A) → distinct (map key rows) ≡ true → distinct (map key (select p rows)) ≡ true
  unfolding distinct select
  distinct-select [] h = refl
  distinct-select (r ∷ rows) h = ground (arith, distinct-select rows, contains-select (key r) rows)

  pub contains-selected :
      (j : ℕ) (rows : List A)
      → distinct (map key rows) ≡ true
      → contains j (map key (select p rows)) ≡ passes p (find key j rows)
  unfolding contains select distinct find first
  contains-selected j [] h = refl
  contains-selected j (r ∷ rows) h = ground (
    arith,
    contains-selected j rows,
    contains-select j rows,
    same_contains (key r) j (map key rows),
  )
