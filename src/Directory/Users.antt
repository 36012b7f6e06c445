-- ===== src/Directory/Users.antt =====
-- lemur/users/service.py.
pub mod Membership
use lemur.Prelude.{
  ℕ, String, ◌≡◌, refl, ◌+◌, Bool, true, false, not, ◌&&◌, ◌||◌, Option, none, some, List, [], ◌∷◌,
  ◌++◌, ◌==◌, nat_eq, string_eq, if◌then◌else◌, select, any, all, contains, map, arith, Bool-cases,
  Option-cases, inl, inr, contains-append, contains-head, beq_refl,
}
use lemur.Prelude.Table.{first, find, drop}
use lemur.Directory.{Role, User, Directory, role_id, user_id, log, log_when, modify_rows}

abbrev pub get : ℕ → Directory → Option User
get i d = find user_id i d.users

abbrev pub get_by_email : String → Directory → Option User
get_by_email email d = first (λ u. u.email == email) d.users

abbrev pub get_by_username : String → Directory → Option User
get_by_username name d = first (λ u. u.username == name) d.users

abbrev pub strict_enforcement_default_roles : List String
strict_enforcement_default_roles = "admin" ∷ "operator" ∷ "read-only" ∷ []

-- Whether one of the roles, by their numbers, is a default role.
unfoldable pub has_default_role : List ℕ → Directory → Bool
has_default_role roles d =
    any (λ r. contains r.id roles && contains r.name strict_enforcement_default_roles) d.roles

-- The first loop of `update_roles`. It removes from the list that it runs over, so the role behind a
-- removed one is passed over. A user holds a role at most once.
unfoldable pub without_removed : List ℕ → List ℕ → List ℕ
without_removed roles [] = []
without_removed roles (ur ∷ []) = if contains ur roles then ur ∷ [] else []
without_removed roles (ur ∷ next ∷ held) =
    let wanted = without_removed roles (next ∷ held) in
    let skipped = without_removed roles held in
    if contains ur roles then ur ∷ wanted else next ∷ skipped

-- Whether the first loop removes a role.
unfoldable pub some_removed : List ℕ → List ℕ → Bool
some_removed roles held = any (λ ur. not (contains ur roles)) held

-- The second loop: each role that is not held by now is appended.
unfoldable pub with_added : List ℕ → List ℕ → List ℕ
with_added [] held = held
with_added (r ∷ roles) held = with_added roles (if contains r held then held else held ++ r ∷ [])

unfoldable pub update_roles : List ℕ → List ℕ → List ℕ
update_roles roles held = with_added roles (without_removed roles held)

-- What `update_roles` writes to the audit log. The first unwanted role is always removed.
abbrev pub log_roles : String → List ℕ → List ℕ → Directory → Directory
log_roles username roles held d =
    log_when (any (λ r. not (contains r (without_removed roles held))) roles) "assign_role" username
      (log_when (some_removed roles held) "unassign_role" username d)

-- `create` and `update` return a refusal, or the user.
pub data Answer : Type 0 where
  role_required : Answer
  saved : User → Answer
  no_such_user : Answer

unfoldable pub create :
    (strict : Bool)
    → (username email : String) → (active : Bool) → (profile_picture : String) → List ℕ
    → Directory
    → Answer × Directory
create strict username email active profile_picture roles d =
    let user : User = record {
      id = d.next_user;
      username = username;
      email = email;
      active = active;
      profile_picture = profile_picture;
      roles = roles;
    } in
    if strict && not (has_default_role roles d) then (role_required, d) else (
      saved user,
      log "create_user" username
          (record d { users = d.users ++ user ∷ []; next_user = d.next_user + 1 }),
    )

unfoldable pub update :
    (strict : Bool)
    → (i : ℕ) → (username email : String) → (active : Bool) → (profile_picture : String) → List ℕ
    → Directory
    → Answer × Directory
update strict i username email active profile_picture roles d =
    if strict && not (has_default_role roles d) then (role_required, d) else elim (get i d) [
      | none ↦ (no_such_user, d)
      | some u ↦
          let u' = record u {
            username = username;
            email = email;
            active = active;
            profile_picture = profile_picture;
            roles = update_roles roles u.roles;
          } in
          (
            saved u',
            log "update_user" username (
                log_roles username roles u.roles
                  (record d { users = modify_rows user_id i (λ _. u') d.users })),
          )
    ]

-- A caller that drops what `update` returns, and goes on with the user that it had: the row as `update`
-- left it.
unfoldable pub dropping_answer : User → Answer × Directory → Answer × Directory
dropping_answer u (saved u', d) = (saved u', d)
dropping_answer u (role_required, d) = (saved u, d)
dropping_answer u (no_such_user, d) = (no_such_user, d)
