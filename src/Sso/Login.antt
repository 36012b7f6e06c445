-- ===== src/Sso/Login.antt =====
-- What a single sign-on login leaves in the tables of roles and users.
use lemur.Prelude.{
  ℕ, String, ◌≡◌, refl, true, false, not, Option, none, some, List, [], ◌∷◌, ◌++◌, ◌==◌, string_eq,
  nat_eq, contains, all, arith, contains-append, contains-head, beq_refl,
}
use lemur.Directory.{Directory}
use lemur.Sso.{
  Profile, enter_role, enter_groups, enter_sent, create_user_roles, create_roles_with, given,
  group_text, own_text, default_text,
}
use lemur.Sso.Granted.{
  granted, granted-enter_role, granted-entered, granted-more, both, all_mono, all-append,
  granted-cons, mark_or_admin,
}

-- The numbers that were there before the groups are entered matter as little as the later ones.
granted-enter_groups :
    (groups : List String) (d : Directory) (roles : List ℕ) (name : String)
    → granted d roles name ≡ true
    → granted (enter_groups groups d).1 roles name ≡ true
unfolding enter_groups
granted-enter_groups [] d roles name h = h
granted-enter_groups (g ∷ groups) d roles name h =
    granted-enter_groups groups _ roles name (granted-enter_role g _ true _ d roles name h)

all-granted-enter_groups :
    (groups : List String) (d : Directory)
    → all (granted (enter_groups groups d).1 (enter_groups groups d).0) groups ≡ true
unfolding all enter_groups
all-granted-enter_groups [] d = refl
all-granted-enter_groups (g ∷ groups) d =
    let m = not (g == "admin") in
    let (x, d') = enter_role g group_text true m d in
    both
      (granted-enter_groups groups d' _ g (
        granted-entered g group_text true m d (x ∷ (enter_groups groups d').0) (mark_or_admin g)
          (contains-head x (enter_groups groups d').0)))
      (all_mono _ _ groups (granted-cons (enter_groups groups d').1 x (enter_groups groups d').0)
        (all-granted-enter_groups groups d'))

unfoldable pub sent : Option (List String) → List String
sent none = []
sent (some groups) = groups

all-granted-enter_sent :
    (o : Option (List String)) (d : Directory)
    → all (granted (enter_sent o d).1 (enter_sent o d).0) (sent o) ≡ true
unfolding enter_sent sent all
all-granted-enter_sent none d = refl
all-granted-enter_sent (some groups) d = all-granted-enter_groups groups d

contains-middle : (x : ℕ) (xs ys : List ℕ) → contains x (xs ++ x ∷ ys) ≡ true
contains-middle x xs ys =
    let e = contains-append x xs (x ∷ ys) in let f = contains-head x ys in ground (arith, e, f)

contains-last : (x y : ℕ) (xs : List ℕ) → contains y (xs ++ x ∷ y ∷ []) ≡ true
unfolding contains
contains-last x y xs = let e = contains-append y xs (x ∷ y ∷ []) in ground (arith, e, beq_refl y)

-- What is granted once the role of the user has been entered, whatever number comes after it.
all-granted-own :
    (o : Option (List String)) (email : String) (d : Directory) (rest : List ℕ)
    → all
        (granted
          (enter_role email own_text true true (enter_sent o d).1).1
          ((enter_sent o d).0 ++ (enter_role email own_text true true (enter_sent o d).1).0 ∷ rest))
        (sent o ++ email ∷ [])
      ≡ true
unfolding all
all-granted-own o email d rest =
    let (groups, d1) = enter_sent o d in
    let (own, d2) = enter_role email own_text true true d1 in
    let p = granted d2 (groups ++ own ∷ rest) in
    all-append p (sent o) (email ∷ [])
      (all_mono (granted d1 groups) p (sent o)
        (λ n h.
          granted-more d2 groups (own ∷ rest) n
            (granted-enter_role email own_text true true d1 groups n h))
        (all-granted-enter_sent o d))
      (both
        (granted-entered email own_text true true d1 (groups ++ own ∷ rest) refl
          (contains-middle own groups rest))
        refl)

-- The groups of a login, its address, and a default role.
unfoldable pub names_of : Option String → Profile → List String
names_of none profile = sent profile.google_groups ++ profile.email ∷ []
names_of (some default) profile = (sent profile.google_groups ++ profile.email ∷ []) ++ default ∷ []

-- The names that a login brings: its groups, the address, and the default role where it is set.
unfoldable pub names : Option String → Profile → List String
names default profile = names_of (given default) profile

grants :
    (default : Option String) (profile : Profile) (d : Directory)
    → all
        (granted (create_roles_with default profile d).1 (create_roles_with default profile d).0)
        (names_of default profile)
      ≡ true
unfolding create_roles_with names_of all
grants none profile d = all-granted-own profile.google_groups profile.email d []
grants (some name) profile d =
    let (groups, d1) = enter_sent profile.google_groups d in
    let (own, d2) = enter_role profile.email own_text true true d1 in
    let (default, d3) = enter_role name default_text false true d2 in
    let roles = groups ++ own ∷ default ∷ [] in
    let brought = sent profile.google_groups ++ profile.email ∷ [] in
    all-append (granted d3 roles) brought (name ∷ [])
      (all_mono (granted d2 roles) (granted d3 roles) brought
        (granted-enter_role name default_text false true d2 roles)
        (all-granted-own profile.google_groups profile.email d (default ∷ [])))
      (both
        (granted-entered name default_text false true d2 roles refl
          (contains-last own default groups))
        refl)

-- After `create_user_roles`, every name that the login brings is the name of a role that is among the
-- roles returned and that, where the name is not `admin`, is one of a third party.
pub create_user_roles_grants :
    (default : Option String) (profile : Profile) (d : Directory)
    → all
        (granted (create_user_roles default profile d).1 (create_user_roles default profile d).0)
        (names default profile)
      ≡ true
unfolding create_user_roles names
create_user_roles_grants default profile d = grants (given default) profile d
