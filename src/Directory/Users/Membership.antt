-- ===== src/Directory/Users/Membership.antt =====
-- Which roles a user holds after `update_roles` of lemur/users/service.py.
use lemur.Prelude.{
  ℕ, ◌≡◌, refl, ap, ◌+◌, ◌%◌, sym, ◌∙◌, subst, Bool, true, false, ◌&&◌, ◌||◌, List, [], ◌∷◌, ◌++◌,
  ◌==◌, nat_eq, if◌then◌else◌, contains, arith, contains-append, sym, ◌∙◌, subst, Bool-cases, inl,
  inr, nat_beq_iff,
}
use lemur.Prelude.{all}
use lemur.Directory.Users.{without_removed, with_added, update_roles}

step-contains :
    (x r : ℕ) (held : List ℕ)
    → contains x (if contains r held then held else held ++ r ∷ []) ≡ (contains x held || (r == x))
unfolding contains
step-contains x r held =
    let e = contains-append x held (r ∷ []) in
    elim (Bool-cases (r == x)) [
      | inl i ↦ let same = (nat_beq_iff r x).0 i in ground (arith, e, same)
      | inr i ↦ ground (arith, e, i)
    ]

-- What the second loop leaves: what is held by now, and what is wanted.
pub contains-with_added :
    (x : ℕ) (roles held : List ℕ)
    → contains x (with_added roles held) ≡ (contains x held || contains x roles)
unfolding with_added contains
contains-with_added x [] held = ground arith
contains-with_added x (r ∷ roles) held =
    let e = contains-with_added x roles (if contains r held then held else held ++ r ∷ []) in
    let s = step-contains x r held in ground (arith, e, s)

or_mono : (a b c : Bool) → (b ≡ true → c ≡ true) → (a || b) ≡ true → (a || c) ≡ true
or_mono true b c f h = refl
or_mono false b c f h = f h

or_skip : (a b : Bool) → b ≡ true → (a || b) ≡ true
or_skip true b h = refl
or_skip false b h = h

module _ (roles : List ℕ) where
  -- The ways that the first loop goes on.
  last-wanted : (ur : ℕ) → contains ur roles ≡ true → without_removed roles (ur ∷ []) ≡ ur ∷ []
  unfolding without_removed
  last-wanted ur i = rw i refl

  last-unwanted : (ur : ℕ) → contains ur roles ≡ false → without_removed roles (ur ∷ []) ≡ []
  unfolding without_removed
  last-unwanted ur i = rw i refl

  without-wanted :
      (ur next : ℕ) (held : List ℕ)
      → contains ur roles ≡ true
      → without_removed roles (ur ∷ next ∷ held) ≡ ur ∷ without_removed roles (next ∷ held)
  unfolding without_removed
  without-wanted ur next held i = rw i refl

  without-unwanted :
      (ur next : ℕ) (held : List ℕ)
      → contains ur roles ≡ false
      → without_removed roles (ur ∷ next ∷ held) ≡ next ∷ without_removed roles held
  unfolding without_removed
  without-unwanted ur next held i = rw i refl

  -- A role that is not wanted is not a wanted one.
  not_it :
      (x ur : ℕ) (b : Bool)
      → contains x roles ≡ true
      → contains ur roles ≡ false
      → (ur == x || b) ≡ true
      → b ≡ true
  not_it x ur b w i h = elim (Bool-cases (ur == x)) [
    | inl e ↦
        let same = (nat_beq_iff ur x).0 e in
        let w' = subst (λ y. contains y roles ≡ true) (sym same) w in cc
    | inr e ↦ ground (arith, e, h)
  ]

  -- What the first loop leaves was held.
  pub contains-without_removed :
      (x : ℕ) (held : List ℕ)
      → contains x (without_removed roles held) ≡ true
      → contains x held ≡ true
  unfolding contains without_removed
  contains-without_removed x [] h = h
  contains-without_removed x (ur ∷ []) h = elim (Bool-cases (contains ur roles)) [
    | inl i ↦ subst (λ l. contains x l ≡ true) (last-wanted ur i) h
    | inr i ↦ or_skip _ _ (subst (λ l. contains x l ≡ true) (last-unwanted ur i) h)
  ]
  contains-without_removed x (ur ∷ next ∷ held) h = elim (Bool-cases (contains ur roles)) [
    | inl i ↦
        or_mono _ _ _ (contains-without_removed x (next ∷ held))
          (subst (λ l. contains x l ≡ true) (without-wanted ur next held i) h)
    | inr i ↦ or_skip _ _ (
        or_mono _ _ _ (contains-without_removed x held)
          (subst (λ l. contains x l ≡ true) (without-unwanted ur next held i) h))
  ]

  -- A wanted role stays.
  pub wanted_stays :
      (x : ℕ) (held : List ℕ)
      → contains x roles ≡ true
      → contains x held ≡ true
      → contains x (without_removed roles held) ≡ true
  unfolding contains without_removed
  wanted_stays x [] w h = h
  wanted_stays x (ur ∷ []) w h = elim (Bool-cases (contains ur roles)) [
    | inl i ↦ subst (λ l. contains x l ≡ true) (sym (last-wanted ur i)) h
    | inr i ↦ let absurd = not_it x ur false w i h in cc
  ]
  wanted_stays x (ur ∷ next ∷ held) w h = elim (Bool-cases (contains ur roles)) [
    | inl i ↦
        subst (λ l. contains x l ≡ true) (sym (without-wanted ur next held i))
          (or_mono _ _ _ (wanted_stays x (next ∷ held) w) h)
    | inr i ↦
        subst (λ l. contains x l ≡ true) (sym (without-unwanted ur next held i))
          (or_mono _ _ _ (wanted_stays x held w) (not_it x ur _ w i h))
  ]

pub update_roles-gives :
    (roles held : List ℕ) (x : ℕ)
    → (contains x roles ≡ true → contains x (update_roles roles held) ≡ true)
      × (contains x (update_roles roles held) ≡ true → (contains x held || contains x roles) ≡ true)
unfolding update_roles
update_roles-gives roles held x =
    let e = contains-with_added x roles (without_removed roles held) in
    let f = contains-without_removed roles x held in ground (arith, e, f)

-- The roles that stay: the wanted ones, and of each run of neighbouring unwanted ones the second, the
-- fourth and so on. The number is that of the unwanted roles right before the list.
unfoldable pub staying : List ℕ → ℕ → List ℕ → List ℕ
staying roles run [] = []
staying roles run (r ∷ held) =
    let behind_wanted = staying roles 0 held in
    let behind_unwanted = staying roles (run + 1) held in
    if contains r roles
    then r ∷ behind_wanted
    else if run % 2 == 1
    then r ∷ behind_unwanted
    else behind_unwanted

-- Only whether the number is odd matters.
staying_parity :
    (roles : List ℕ) (n m : ℕ) (held : List ℕ)
    → n % 2 ≡ m % 2
    → staying roles n held ≡ staying roles m held
unfolding staying
staying_parity roles n m [] h = refl
staying_parity roles n m (r ∷ held) h =
    rw (staying_parity roles (n + 1) (m + 1) held (omega (arith, h)), h) refl

staying-without_removed : (roles held : List ℕ) → without_removed roles held ≡ staying roles 0 held
unfolding staying without_removed
staying-without_removed roles [] = refl
staying-without_removed roles (ur ∷ []) = elim (Bool-cases (contains ur roles)) [
  | inl i ↦ last-wanted roles ur i ∙ rw i refl
  | inr i ↦ last-unwanted roles ur i ∙ rw i refl
]
staying-without_removed roles (ur ∷ next ∷ held) =
    let ih = staying-without_removed roles (next ∷ held) in
    let later = staying-without_removed roles held in
    let even = staying_parity roles 2 0 held refl in
    elim (Bool-cases (contains ur roles)) [
      | inl i ↦ without-wanted roles ur next held i ∙ rw (i, ih) refl
      | inr i ↦
          without-unwanted roles ur next held i
          ∙ (rw (i, later)
              (elim (Bool-cases (contains next roles)) [
                | inl k ↦ rw k refl
                | inr k ↦ rw (k, even) refl
              ]))
    ]

-- After `update_roles` a role is held exactly when it is wanted, or was held before and stands at an
-- even place, counted from one, in a run of neighbouring unwanted roles: the others are removed.
pub update_roles_as_wanted :
    (roles held : List ℕ) (x : ℕ)
    → contains x (update_roles roles held) ≡ (contains x (staying roles 0 held) || contains x roles)
unfolding update_roles
update_roles_as_wanted roles held x =
    contains-with_added x roles (without_removed roles held)
    ∙ ap (λ l. contains x l || contains x roles) (staying-without_removed roles held)

-- Whether no role that is not wanted comes right behind another one.
unfoldable pub spread : List ℕ → List ℕ → Bool
spread roles [] = true
spread roles (ur ∷ []) = true
spread roles (ur ∷ next ∷ held) =
    (contains ur roles || contains next roles) && spread roles (next ∷ held)

spread-tail :
    (roles : List ℕ) (ur : ℕ) (held : List ℕ)
    → spread roles (ur ∷ held) ≡ true
    → spread roles held ≡ true
unfolding spread
spread-tail roles ur [] h = refl
spread-tail roles ur (next ∷ held) h = ground (arith, h)

left_wanted :
    (roles held : List ℕ)
    → spread roles held ≡ true
    → all (λ r. contains r roles) (without_removed roles held) ≡ true
unfolding spread without_removed all
left_wanted roles [] h = refl
left_wanted roles (ur ∷ []) h = elim (Bool-cases (contains ur roles)) [
  | inl i ↦ rw (i, i) refl
  | inr i ↦ rw i refl
]
left_wanted roles (ur ∷ next ∷ held) h =
    let rest =
      left_wanted roles held (spread-tail roles next held (spread-tail roles ur (next ∷ held) h)) in
    let step = left_wanted roles (next ∷ held) (spread-tail roles ur (next ∷ held) h) in
    elim (Bool-cases (contains ur roles)) [
      | inl i ↦
          subst (λ l. all (λ r. contains r roles) l ≡ true)
            (sym (without-wanted roles ur next held i)) (ground (arith, i, step))
      | inr i ↦
          subst (λ l. all (λ r. contains r roles) l ≡ true)
            (sym (without-unwanted roles ur next held i)) (ground (arith, i, rest, h))
    ]

all-contains :
    (roles : List ℕ) (x : ℕ) (xs : List ℕ)
    → all (λ r. contains r roles) xs ≡ true
    → contains x xs ≡ true
    → contains x roles ≡ true
unfolding all contains
all-contains roles x [] h c = cc
all-contains roles x (y ∷ ys) h c = elim (Bool-cases (y == x)) [
  | inl e ↦
      let same = (nat_beq_iff y x).0 e in
      subst (λ z. contains z roles ≡ true) same (ground (arith, h))
  | inr e ↦ all-contains roles x ys (ground (arith, h)) (ground (arith, e, c))
]

-- Where a user's unwanted roles do not stand next to each other, the user holds exactly the wanted
-- roles after `update_roles`.
pub update_roles_exact :
    (roles held : List ℕ) (x : ℕ)
    → spread roles held ≡ true
    → contains x (update_roles roles held) ≡ contains x roles
unfolding update_roles
update_roles_exact roles held x h =
    let e = contains-with_added x roles (without_removed roles held) in
    let f = all-contains roles x (without_removed roles held) (left_wanted roles held h) in
    ground (arith, e, f)
