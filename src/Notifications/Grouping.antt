-- ===== src/Notifications/Grouping.antt =====
-- What sorting and grouping keep, and what the bounds of the queries leave out.
use lemur.Prelude.{
  ℕ, String, ◌≡◌, refl, sym, ap, ◌∙◌, ◌+◌, ◌*◌, Bool, true, false, ◌&&◌, ◌||◌, none, some, List, [],
  ◌∷◌, ◌==◌, nat_eq, string_eq, select, any, arith, Bool-cases, inl, inr, Eq, leb, ltb,
}
use lemur.Prelude.Int.{ℤ, pos, negsuc, days_between, int_eq, day}
use lemur.Notifications.{Certificate}
use lemur.Notifications.Groups.{
  insert, sorted, join_group, groupby, int_leb, alive, included, max_of,
  get_certificates_for_security_summary_email, get_expiring_authority_certificates,
}

module _ {A K : Type 0} (key : A → K) where
  any-insert :
      (p : A → Bool) (le : K → K → Bool) (x : A) (ys : List A)
      → any p (insert key le x ys) ≡ (p x || any p ys)
  unfolding any insert
  any-insert p le x [] = refl
  any-insert p le x (y ∷ ys) = ground (arith, any-insert p le x ys)

  any-sorted :
      (p : A → Bool) (le : K → K → Bool) (xs : List A) → any p (sorted key le xs) ≡ any p xs
  unfolding any sorted
  any-sorted p le [] = refl
  any-sorted p le (x ∷ xs) =
      ground (arith, any-insert p le x (sorted key le xs), any-sorted p le xs)

  module _ ⦃e : Eq K⦄ where
    -- Whether an element that passes is in a group whose key passes.
    unfoldable pub grouped : (A → Bool) → (K → Bool) → List (K × List A) → Bool
    grouped p q groups = any (λ (k, g). q k && any p g) groups

    grouped-join_group :
        (p : A → Bool) (q : K → Bool) (x : A) (groups : List (K × List A))
        → grouped p q (join_group key x groups) ≡ ((q (key x) && p x) || grouped p q groups)
    unfolding grouped any join_group
    grouped-join_group p q x [] = ground arith
    grouped-join_group p q x ((k, g) ∷ groups) = elim (Bool-cases (key x == k)) [
      | inl h ↦ let same = ap q ((e.same_iff (key x) k).0 h) in rw h (ground (arith, same))
      | inr h ↦ rw h (ground arith)
    ]

    grouped-runs :
        (p : A → Bool) (q : K → Bool) (ys : List A)
        → grouped p q (groupby key ys) ≡ any (λ x. q (key x) && p x) ys
    unfolding groupby any grouped
    grouped-runs p q [] = refl
    grouped-runs p q (y ∷ ys) =
        grouped-join_group p q y (groupby key ys)
        ∙ ap (λ b. (q (key y) && p y) || b) (grouped-runs p q ys)

    -- Sorting and grouping loses no element and adds none, and each stands in a group of its own key.
    pub grouped-groupby :
        (p : A → Bool) (q : K → Bool) (le : K → K → Bool) (xs : List A)
        → grouped p q (groupby key (sorted key le xs)) ≡ any (λ x. q (key x) && p x) xs
    grouped-groupby p q le xs =
        grouped-runs p q (sorted key le xs) ∙ any-sorted (λ x. q (key x) && p x) le xs

select-select :
    {A : Type 0} (p q r : A → Bool) (xs : List A)
    → ((x : A) → (q x && p x) ≡ r x)
    → select p (select q xs) ≡ select r xs
unfolding select
select-select p q r [] h = refl
select-select p q r (x ∷ xs) h =
    let same = h x in
    elim (Bool-cases (q x)) [
      | inl e ↦ elim (Bool-cases (p x)) [
        | inl f ↦
            let g : r x ≡ true = sym same ∙ rw (e, f) refl in
            rw (e, f, g) (ap (λ t. x ∷ t) (select-select p q r xs h))
        | inr f ↦
            let g : r x ≡ false = sym same ∙ rw (e, f) refl in
            rw (e, f, g) (select-select p q r xs h)
      ]
      | inr e ↦ let g : r x ≡ false = sym same ∙ rw e refl in rw (e, g) (select-select p q r xs h)
    ]

-- A moment in at most `m` whole days is before the end of the day after them.
day_bound :
    (now t m : ℕ) → int_leb (days_between now t) (pos m) ≡ true → ltb t (now + (m + 1) * day) ≡ true
unfolding days_between
day_bound now t m h = elim (Bool-cases (leb now t)) [
  | inl e ↦ ground (arith, e, h)
  | inr e ↦ ground (arith, e)
]

le_max :
    (days : ℤ) (i : ℕ) (rest : List ℕ)
    → any (λ n. days == pos n) (i ∷ rest) ≡ true
    → int_leb days (pos (max_of i rest)) ≡ true
unfolding any max_of
le_max (pos n) i [] h = ground (arith, h)
le_max (pos n) i (j ∷ rest) h = ground (arith, h, le_max (pos n) j rest)
le_max (negsuc n) i rest h = refl

drop_bound : (bound r p : Bool) → (p ≡ true → bound ≡ true) → ((bound && r) && p) ≡ (r && p)
drop_bound true r p f = refl
drop_bound false r true f = let absurd = f refl in cc
drop_bound false r false f = ground arith

leb-ltb : (a b : ℕ) → ltb a b ≡ true → leb a b ≡ true
leb-ltb a b h = ground (arith, h)

-- The bound that the query for the summary puts on `not_after` leaves out no certificate: the ones
-- returned are those that are alive, not excluded, and expire within the threshold.
pub summary_bound_is_redundant :
    (now threshold : ℕ) (exclude : List String) (table : List Certificate)
    → get_certificates_for_security_summary_email now threshold exclude table
      ≡ select
          (λ c.
            (alive now c && included exclude c)
            && int_leb (days_between now c.not_after) (pos threshold))
          table
unfolding get_certificates_for_security_summary_email
summary_bound_is_redundant now threshold exclude table =
    select-select _ _ _ table
      λ c. drop_bound _ _ _ (λ h. leb-ltb c.not_after _ (day_bound now c.not_after threshold h))

-- The bound that the query for authorities puts on `not_after` leaves out no certificate: the ones
-- returned are those of a root authority that are alive and expire in a number of days that is listed.
pub authority_bound_is_redundant :
    (now i : ℕ) (rest : List ℕ) (table : List Certificate)
    → get_expiring_authority_certificates now i rest table
      ≡ select
          (λ c.
            (alive now c
              && (elim c.root_authority_id [ some _ ↦ true | none ↦ false ])
              && (elim c.authority_id [ some _ ↦ false | none ↦ true ]))
            && any (λ n. days_between now c.not_after == pos n) (i ∷ rest))
          table
unfolding get_expiring_authority_certificates
authority_bound_is_redundant now i rest table =
    select-select _ _ _ table
      λ c. drop_bound _ _ _ (λ h. day_bound now c.not_after (max_of i rest) (le_max _ i rest h))
