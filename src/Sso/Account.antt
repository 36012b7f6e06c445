-- ===== src/Sso/Account.antt =====
-- Which roles a user holds after `update_user` of lemur/auth/views.py.
use lemur.Prelude.{
  ℕ, ◌≡◌, refl, sym, ap, ◌∙◌, Bool, true, false, not, ◌&&◌, ◌||◌, some, List, [], ◌∷◌, ◌++◌, ◌==◌,
  nat_eq, if◌then◌else◌, contains, arith, Bool-cases, inl, inr, contains-append, nat_beq_iff,
}
use lemur.Prelude.Table.{first, find}
use lemur.Directory.{User, Directory, user_id, modify_rows}
use lemur.Directory.Users.{saved, dropping_answer, update, update_roles, has_default_role}
use lemur.Directory.Users.Membership.{update_roles-gives}
use lemur.Sso.{Profile, is_third_party, keep_own, update_user}

keep_own-append :
    (x r : ℕ) (roles : List ℕ) → contains x (roles ++ r ∷ []) ≡ (contains x roles || r == x)
unfolding contains
keep_own-append x r roles = let e = contains-append x roles (r ∷ []) in ground (arith, e)

drop_unkept :
    (given here held third : Bool)
    → (here ≡ true → third ≡ true)
    → (given || (held && not third)) ≡ (given || ((here || held) && not third))
drop_unkept given true held third h = rw (h refl) (ground arith)
drop_unkept given false held third h = refl

take_kept :
    (given here held third : Bool)
    → (here ≡ true → third ≡ false)
    → ((given || here) || (held && not third)) ≡ (given || ((here || held) && not third))
take_kept given true held third h = rw (h refl) (ground arith)
take_kept given false held third h = ground arith

-- The roles that an update is asked for: those of the login, and those that were held and are not of a
-- third party.
pub contains-keep_own :
    (d : Directory) (x : ℕ) (held roles : List ℕ)
    → contains x (keep_own d held roles)
      ≡ (contains x roles || (contains x held && not (is_third_party d x)))
unfolding keep_own contains
contains-keep_own d x [] roles = ground arith
contains-keep_own d x (ur ∷ held) roles =
    let e = keep_own-append x ur roles in
    let later = contains-keep_own d x held in
    let same = λ (h : ur == x ≡ true). ap (is_third_party d) ((nat_beq_iff ur x).0 h) in
    elim (Bool-cases (is_third_party d ur))
      as (λ _.
        contains x (keep_own d held (if is_third_party d ur then roles else roles ++ ur ∷ []))
        ≡ (contains x roles || ((ur == x || contains x held) && not (is_third_party d x)))) [
          | inl t ↦ rw t (
              later roles
              ∙ drop_unkept (contains x roles) (ur == x) (contains x held) _
                  (λ h. sym (same h) ∙ t))
          | inr t ↦ rw t (
              later (roles ++ ur ∷ [])
              ∙ ap (λ b. b || (contains x held && not (is_third_party d x))) e
              ∙ take_kept (contains x roles) (ur == x) (contains x held) _ (λ h. sym (same h) ∙ t))
        ]

find-modify :
    (i : ℕ) (u u' : User) (rows : List User)
    → u'.id ≡ i
    → find user_id i rows ≡ some u
    → find user_id i (modify_rows user_id i (λ _. u') rows) ≡ some u'
unfolding find first modify_rows
find-modify i u u' [] same h = cc
find-modify i u u' (r ∷ rows) same h = ground (arith, same, h, find-modify i u u' rows)

-- Without strict enforcement, the login of a user with an account leaves in the table an account that
-- holds each role of the login, and each role that the user held and that is not of a third party.
pub update_user_gives :
    (u : User) (profile : Profile) (roles : List ℕ) (d : Directory) (x : ℕ)
    → find user_id u.id d.users ≡ some u
    → (contains x roles || (contains x u.roles && not (is_third_party d x))) ≡ true
    → (u' : User) × ((update_user false (some u) profile roles d).0 ≡ saved u')
      × (find user_id u.id (update_user false (some u) profile roles d).1.users ≡ some u')
      × (contains x u'.roles ≡ true)
unfolding update_user update dropping_answer
update_user_gives u profile roles d x h c =
    let u' : User = record u {
      username = profile.email;
      email = profile.email;
      active = true;
      profile_picture = profile.thumbnail;
      roles = update_roles (keep_own d u.roles roles) u.roles;
    } in
    let wanted = contains-keep_own d x u.roles roles ∙ c in
    (
      u',
      rw h refl,
      rw h (find-modify u.id u u' d.users refl h),
      (update_roles-gives (keep_own d u.roles roles) u.roles x).0 wanted,
    )

-- Under strict enforcement, where neither the roles of the login nor the roles kept are a default
-- role, the login goes on with the user as before, and the accounts and the roles stay as they are.
pub update_user_unchanged :
    (u : User) (profile : Profile) (roles : List ℕ) (d : Directory)
    → has_default_role (keep_own d u.roles roles) d ≡ false
    → ((update_user true (some u) profile roles d).0 ≡ saved u)
      × ((update_user true (some u) profile roles d).1.users ≡ d.users)
      × ((update_user true (some u) profile roles d).1.roles ≡ d.roles)
unfolding update_user update dropping_answer has_default_role
update_user_unchanged u profile roles d h = rw h (refl, refl, refl)
