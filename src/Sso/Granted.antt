-- ===== src/Sso/Granted.antt =====
-- Which names of roles a single sign-on login has been granted, and the steps that keep them.
use lemur.Prelude.{
  ℕ, String, ◌≡◌, refl, sym, ◌∙◌, subst, Bool, true, false, not, ◌&&◌, ◌||◌, Option, none, some,
  List, [], ◌∷◌, ◌++◌, ◌==◌, string_eq, nat_eq, if◌then◌else◌, contains, all, arith, Bool-cases,
  Option-cases, inl, inr, contains-append, beq_refl,
}
use lemur.Prelude.Table.{first, first-append}
use lemur.Directory.{Role, Directory, role_id, modify_rows}
use lemur.Directory.Roles.{get_by_name, create, set_third_party}
use lemur.Sso.{mark_role, enter_role}

abbrev pub marked : Role → Role
marked r = record r { third_party = true }

mark_if : ℕ → Option Role → Option Role
mark_if i none = none
mark_if i (some r) = some (if r.id == i then marked r else r)

first-mark :
    (n : String) (i : ℕ) (rows : List Role)
    → first (λ r. r.name == n) (modify_rows role_id i marked rows)
      ≡ mark_if i (first (λ r. r.name == n) rows)
unfolding first modify_rows mark_if
first-mark n i [] = refl
first-mark n i (r ∷ rows) = ground (arith, first-mark n i rows)

-- Whether a role, which a name was looked up for, is there, is one of `roles` and, but for the name
-- `admin`, a third party's.
unfoldable pub passes : List ℕ → String → Option Role → Bool
passes roles name none = false
passes roles name (some r) = contains r.id roles && (r.third_party || name == "admin")

unfoldable pub granted : Directory → List ℕ → String → Bool
granted d roles name = passes roles name (get_by_name name d)

passes-mark :
    (roles : List ℕ) (name : String) (i : ℕ) (o : Option Role)
    → passes roles name o ≡ true
    → passes roles name (mark_if i o) ≡ true
unfolding passes mark_if
passes-mark roles name i none h = h
passes-mark roles name i (some r) h = ground (arith, h)

pub granted-set_third_party :
    (role : Role) (d : Directory) (roles : List ℕ) (name : String)
    → granted d roles name ≡ true
    → granted (set_third_party role true d).1 roles name ≡ true
unfolding granted set_third_party
granted-set_third_party role d roles name h =
    subst (λ o. passes roles name o ≡ true) (sym (first-mark name role.id d.roles))
      (passes-mark roles name role.id _ h)

passes-append :
    (roles : List ℕ) (name : String) (o o' : Option Role)
    → passes roles name o ≡ true
    → passes roles name (elim o [ some r ↦ some r | none ↦ o' ]) ≡ true
unfolding passes
passes-append roles name none o' h = cc
passes-append roles name (some r) o' h = h

pub granted-create :
    (n t : String) (tp : Bool) (d : Directory) (roles : List ℕ) (name : String)
    → granted d roles name ≡ true
    → granted (create n t tp d).1 roles name ≡ true
unfolding granted create
granted-create n t tp d roles name h =
    subst (λ o. passes roles name o ≡ true) (sym (first-append (λ r. r.name == name) d.roles _))
      (passes-append roles name _ _ h)

pub granted-mark_role :
    (mark : Bool) (p : Role × Directory) (roles : List ℕ) (name : String)
    → granted p.1 roles name ≡ true
    → granted (mark_role mark p).1 roles name ≡ true
granted-mark_role mark (role, d) roles name h = elim (Bool-cases (mark && not role.third_party)) [
  | inl e ↦ rw e (granted-set_third_party role d roles name h)
  | inr e ↦ rw e h
]

pub granted-enter_role :
    (n t : String) (tp mark : Bool) (d : Directory) (roles : List ℕ) (name : String)
    → granted d roles name ≡ true
    → granted (enter_role n t tp mark d).1 roles name ≡ true
unfolding enter_role
granted-enter_role n t tp mark d roles name h = elim (Option-cases (get_by_name n d)) [
  | inl e ↦
      rw e
        (granted-mark_role mark (create n t tp d) roles name (granted-create n t tp d roles name h))
  | inr (r, e) ↦ rw e (granted-mark_role mark (r, d) roles name h)
]

passes-found :
    (roles : List ℕ) (name : String) (i : ℕ) (o : Option Role) {r : Role}
    → o ≡ some r
    → i ≡ r.id
    → contains r.id roles ≡ true
    → passes roles name (mark_if i o) ≡ true
unfolding passes mark_if
passes-found roles name i none e _ _ = cc
passes-found roles name i (some q) {r} e same h =
    subst (λ o. passes roles name (mark_if i o) ≡ true) (sym e)
      (ground (arith, h, same, beq_refl r.id))

mark_role-id : (mark : Bool) (p : Role × Directory) → (mark_role mark p).0 ≡ p.0.id
mark_role-id mark (role, d) = ground arith

passes-unmarked :
    (roles : List ℕ) (mark : Bool) (name : String) (r : Role)
    → (mark && not r.third_party) ≡ false
    → (mark || name == "admin") ≡ true
    → contains r.id roles ≡ true
    → passes roles name (some r) ≡ true
unfolding passes
passes-unmarked roles mark name r b m c = ground (arith, b, m, c)

pub granted-marked :
    (mark : Bool) (role : Role) (d : Directory) (roles : List ℕ) (name : String)
    → get_by_name name d ≡ some role
    → (mark || name == "admin") ≡ true
    → contains (mark_role mark (role, d)).0 roles ≡ true
    → granted (mark_role mark (role, d)).1 roles name ≡ true
unfolding granted set_third_party
granted-marked mark role d roles name e m c =
    let c' = subst (λ i. contains i roles ≡ true) (mark_role-id mark (role, d)) c in
    elim (Bool-cases (mark && not role.third_party)) [
      | inl b ↦ rw b (
          subst (λ o. passes roles name o ≡ true) (sym (first-mark name role.id d.roles))
            (passes-found roles name role.id _ e refl c'))
      | inr b ↦ rw b (
          subst (λ o. passes roles name o ≡ true) (sym e)
            (passes-unmarked roles mark name role b m c'))
    ]

created_found :
    (n t : String) (tp : Bool) (d : Directory)
    → get_by_name n d ≡ none
    → get_by_name n (create n t tp d).1 ≡ some (create n t tp d).0
unfolding create first
created_found n t tp d e = first-append (λ r. r.name == n) d.roles _ ∙ ground (arith, e, beq_refl n)

pub granted-entered :
    (n t : String) (tp mark : Bool) (d : Directory) (roles : List ℕ)
    → (mark || n == "admin") ≡ true
    → contains (enter_role n t tp mark d).0 roles ≡ true
    → granted (enter_role n t tp mark d).1 roles n ≡ true
unfolding enter_role
granted-entered n t tp mark d roles m = elim (Option-cases (get_by_name n d)) [
  | inl e ↦ rw e (
      granted-marked mark (create n t tp d).0 (create n t tp d).1 roles n (created_found n t tp d e)
        m)
  | inr (r, e) ↦ rw e (granted-marked mark r d roles n e m)
]

passes-more :
    (xs ys : List ℕ) (name : String) (o : Option Role)
    → passes xs name o ≡ true
    → passes (xs ++ ys) name o ≡ true
unfolding passes
passes-more xs ys name none h = h
passes-more xs ys name (some r) h = let e = contains-append r.id xs ys in ground (arith, e, h)

passes-cons :
    (x : ℕ) (xs : List ℕ) (name : String) (o : Option Role)
    → passes xs name o ≡ true
    → passes (x ∷ xs) name o ≡ true
unfolding passes contains
passes-cons x xs name none h = h
passes-cons x xs name (some r) h = ground (arith, h)

-- What a login has been given so far stays given when it is given more.
pub granted-more :
    (d : Directory) (xs ys : List ℕ) (name : String)
    → granted d xs name ≡ true
    → granted d (xs ++ ys) name ≡ true
unfolding granted
granted-more d xs ys name h = passes-more xs ys name (get_by_name name d) h

pub both : {a b : Bool} → a ≡ true → b ≡ true → (a && b) ≡ true
both h k = ground (arith, h, k)

pub all_mono :
    (p q : String → Bool) (names : List String)
    → ((n : String) → p n ≡ true → q n ≡ true)
    → all p names ≡ true
    → all q names ≡ true
unfolding all
all_mono p q [] f h = refl
all_mono p q (n ∷ names) f h =
    both (f n (ground (arith, h))) (all_mono p q names f (ground (arith, h)))

pub all-append :
    (p : String → Bool) (xs ys : List String)
    → all p xs ≡ true
    → all p ys ≡ true
    → all p (xs ++ ys) ≡ true
unfolding all
all-append p [] ys h k = k
all-append p (x ∷ xs) ys h k = both (ground (arith, h)) (all-append p xs ys (ground (arith, h)) k)

pub granted-cons :
    (d : Directory) (x : ℕ) (xs : List ℕ) (name : String)
    → granted d xs name ≡ true
    → granted d (x ∷ xs) name ≡ true
unfolding granted
granted-cons d x xs name h = passes-cons x xs name (get_by_name name d) h

pub mark_or_admin : (g : String) → (not (g == "admin") || g == "admin") ≡ true
mark_or_admin g = ground arith
