-- ===== src/Ldap.antt =====
-- lemur/auth/ldap.py: which roles an LDAP login brings, and the account that it creates or updates.
-- The directory server is a parameter: `lgroups` are the groups that it returns for the bound user.
-- A Python set of roles is a list of their numbers without repetitions.
pub mod Groups
use lemur.Prelude.{
  ℕ, String, Bool, true, false, not, ◌&&◌, ◌||◌, Option, none, some, List, [], ◌∷◌, ◌++◌, ◌==◌,
  string_eq, nat_eq, if◌then◌else◌, contains,
}
use lemur.Prelude.Text.{occurs, join}
use lemur.Directory.{Role, User, Directory}
use lemur.Directory.Roles
use lemur.Directory.Users
use lemur.Directory.Users.{Answer}
use lemur.Sso.{is_third_party}

-- The settings `LEMUR_DEFAULT_ROLE`, `LDAP_REQUIRED_GROUP`, `LDAP_GROUPS_TO_ROLES` and
-- `LDAP_IS_ACTIVE_DIRECTORY`.
pub record Config : Type 0 where
  pub default_role : Option String
  pub required_group : Option String
  pub groups_to_roles : List (String × String)
  pub is_active_directory : Bool

pub record LdapPrincipal : Type 0 where
  pub principal : String
  pub username : String

-- `ldap_groups` is a list for Active Directory, else one text.
pub data LdapGroups : Type 0 where
  listed : List String → LdapGroups
  joined : String → LdapGroups

-- What `_bind` keeps of the groups that the server returns.
unfoldable pub bind_groups : Config → List String → LdapGroups
bind_groups config lgroups =
    if config.is_active_directory then listed lgroups else joined (join lgroups)

-- `group in self.ldap_groups`
unfoldable pub in_groups : String → LdapGroups → Bool
in_groups group (listed groups) = contains group groups
in_groups group (joined groups) = occurs group groups

-- `roles.add(role)`
abbrev pub add : ℕ → List ℕ → List ℕ
add r roles = if contains r roles then roles else roles ++ r ∷ []

-- A role is marked as one of a third party where it is not, and then added.
unfoldable pub add_role : Role → List ℕ × Directory → List ℕ × Directory
add_role role (roles, d) =
    (add role.id roles, if role.third_party then d else (Roles.set_third_party role true d).1)

unfoldable pub add_default : Option String → Directory → List ℕ × Directory
add_default none d = ([], d)
add_default (some name) d =
    if name == ""
    then ([], d)
    else elim (Roles.get_by_name name d) [ none ↦ ([], d) | some role ↦ add_role role ([], d) ]

unfoldable pub add_own : String → List ℕ × Directory → List ℕ × Directory
add_own principal (roles, d) = elim (Roles.get_by_name principal d) [
  | some role ↦ add_role role (roles, d)
  | none ↦
      let (role, d') = Roles.create principal "auto generated role based on owner" true d in
      add_role role (roles, d')
]

unfoldable pub add_mapped :
    List (String × String) → LdapGroups → List ℕ × Directory → List ℕ × Directory
add_mapped [] groups s = s
add_mapped ((group, name) ∷ rest) groups (roles, d) =
    add_mapped rest groups (elim (Roles.get_by_name name d) [
      | none ↦ (roles, d)
      | some role ↦ if in_groups group groups then add_role role (roles, d) else (roles, d)
    ])

unfoldable pub has_required : Option String → LdapGroups → Bool
has_required none groups = true
has_required (some group) groups = group == "" || in_groups group groups

unfoldable pub authorize :
    Config → LdapPrincipal → LdapGroups → Directory → Option (List ℕ) × Directory
authorize config p groups d =
    if p.principal == "" || not (has_required config.required_group groups)
    then (none, d)
    else (let (roles, d') =
          add_mapped config.groups_to_roles groups
            (add_own p.principal (add_default config.default_role d)) in
        (some roles, d'))

-- The roles that were given in Lemur are added to the set.
unfoldable pub add_held : Directory → (held roles : List ℕ) → List ℕ
add_held d [] roles = roles
add_held d (ur ∷ held) roles = add_held d held (if is_third_party d ur then roles else add ur roles)

unfoldable pub update_user :
    (strict : Bool) → LdapPrincipal → List ℕ → Directory → Answer × Directory
update_user strict p roles d = elim (Users.get_by_email p.principal d) [
  | none ↦ Users.create strict p.username p.principal true "" roles d
  | some u ↦ Users.dropping_answer u (
      Users.update strict u.id p.username p.principal u.active u.profile_picture
        (add_held d u.roles roles) d)
]

-- None where `authenticate` raises, once the server has accepted the password.
unfoldable pub log_in :
    (strict : Bool) → LdapPrincipal → Option (List ℕ) × Directory → Option Answer × Directory
log_in strict p (none, d) = (none, d)
log_in strict p (some [], d) = (none, d)
log_in strict p (some (r ∷ roles), d) =
    let (answer, d') = update_user strict p (r ∷ roles) d in (some answer, d')

unfoldable pub authenticate :
    (strict : Bool) → Config → LdapPrincipal → List String → Directory → Option Answer × Directory
authenticate strict config p lgroups d =
    log_in strict p (authorize config p (bind_groups config lgroups) d)
