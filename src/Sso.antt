-- ===== src/Sso.antt =====
-- The roles of a single sign-on login: `create_user_roles` and `update_user` of lemur/auth/views.py.
-- A role of the login is named by its number. The profile has the fields that the two functions read.
pub mod Granted
pub mod Login
pub mod Account
use lemur.Prelude.{
  ℕ, String, Bool, true, false, not, ◌&&◌, ◌||◌, Option, none, some, List, [], ◌∷◌, ◌++◌, ◌==◌,
  string_eq, nat_eq, if◌then◌else◌, contains, any,
}
use lemur.Prelude.Table.{find}
use lemur.Directory.{Role, User, Directory, role_id, log_when}
use lemur.Directory.Roles
use lemur.Directory.Users
use lemur.Directory.Users.{Answer}

-- `google_groups` is none where the provider does not send them.
pub record Profile : Type 0 where
  pub email : String
  pub thumbnail : String
  pub google_groups : Option (List String)

-- The role of that name, created where there is none and marked as one of a third party where it has
-- to be: the steps that `create_user_roles` takes for a group, for the user and for the default role.
abbrev pub group_text : String
group_text = "This is a google group based role created by Lemur"

abbrev pub own_text : String
own_text = "This is a user specific role"

abbrev pub default_text : String
default_text = "This is the default Lemur role."

abbrev pub mark_role : (mark : Bool) → Role × Directory → ℕ × Directory
mark_role mark (role, d) =
    if mark && not role.third_party
    then (role.id, (Roles.set_third_party role true d).1)
    else (role.id, d)

unfoldable pub enter_role :
    (name description : String) → (third_party mark : Bool) → Directory → ℕ × Directory
enter_role name description third_party mark d = mark_role mark (elim (Roles.get_by_name name d) [
  | some role ↦ (role, d)
  | none ↦ Roles.create name description third_party d
])

unfoldable pub enter_groups : List String → Directory → List ℕ × Directory
enter_groups [] d = ([], d)
enter_groups (group ∷ groups) d =
    let (role, d') = enter_role group group_text true (not (group == "admin")) d in
    let (roles, d'') = enter_groups groups d' in (role ∷ roles, d'')

unfoldable pub enter_sent : Option (List String) → Directory → List ℕ × Directory
enter_sent (some groups) d = enter_groups groups d
enter_sent none d = ([], d)

-- The truth of a setting: an empty text counts as none.
abbrev pub given : Option String → Option String
given none = none
given (some name) = if name == "" then none else some name

-- `default_role` is `LEMUR_DEFAULT_ROLE` of the configuration, where it is set.
unfoldable pub create_roles_with :
    (default_role : Option String) → Profile → Directory → List ℕ × Directory
create_roles_with default_role profile d =
    let (groups, d1) = enter_sent profile.google_groups d in
    let (own, d2) = enter_role profile.email own_text true true d1 in
    elim default_role [
      | none ↦ (groups ++ own ∷ [], d2)
      | some name ↦
          let (default, d3) = enter_role name default_text false true d2 in
          (groups ++ own ∷ default ∷ [], d3)
    ]

unfoldable pub create_user_roles :
    (default_role : Option String) → Profile → Directory → List ℕ × Directory
create_user_roles default_role profile d = create_roles_with (given default_role) profile d

unfoldable pub is_third_party : Directory → ℕ → Bool
is_third_party d i = elim (find role_id i d.roles) [ some r ↦ r.third_party | none ↦ false ]

-- The roles that were given in Lemur are added to those of the login.
unfoldable pub keep_own : Directory → (held roles : List ℕ) → List ℕ
keep_own d [] roles = roles
keep_own d (ur ∷ held) roles =
    keep_own d held (if is_third_party d ur then roles else roles ++ ur ∷ [])

-- Whether a role that another login gave is missing now.
unfoldable pub some_lost : Directory → (held roles : List ℕ) → Bool
some_lost d [] roles = false
some_lost d (ur ∷ held) roles =
    if is_third_party d ur
    then not (contains ur roles) || some_lost d held roles
    else some_lost d held (roles ++ ur ∷ [])

unfoldable pub update_user :
    (strict : Bool) → Option User → Profile → List ℕ → Directory → Answer × Directory
update_user strict none profile roles d =
    Users.create strict profile.email profile.email true profile.thumbnail roles d
update_user strict (some u) profile roles d = Users.dropping_answer u (
    Users.update strict u.id profile.email profile.email true profile.thumbnail
      (keep_own d u.roles roles)
      (log_when (some_lost d u.roles roles) "unassign_role" u.username d))
