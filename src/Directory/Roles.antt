-- ===== src/Directory/Roles.antt =====
-- lemur/roles/service.py.
use lemur.Prelude.{
  ℕ, String, ◌+◌, Bool, false, not, Option, none, some, List, [], ◌∷◌, ◌++◌, ◌==◌, nat_eq,
  string_eq, if◌then◌else◌, select, contains, map,
}
use lemur.Prelude.Table.{first, find, drop}
use lemur.Directory.{Role, User, Directory, role_id, log, modify_rows}

abbrev pub get : ℕ → Directory → Option Role
get i d = find role_id i d.roles

abbrev pub get_by_name : String → Directory → Option Role
get_by_name name d = first (λ r. r.name == name) d.roles

-- The new role gets the next number of the sequence.
unfoldable pub create :
    (name description : String) → (third_party : Bool) → Directory → Role × Directory
create name description third_party d =
    let role : Role = record {
      id = d.next_role;
      name = name;
      description = description;
      third_party = third_party;
    } in
    (
      role,
      log "create_role" name
          (record d { roles = d.roles ++ role ∷ []; next_role = d.next_role + 1 }),
    )

-- The argument is the role that `get` finds for the number.
unfoldable pub set_third_party : Role → Bool → Directory → Role × Directory
set_third_party role status d = (
  record role { third_party = status },
  log "update_role" role.name (record d {
    roles = modify_rows role_id role.id (λ r. record r { third_party = status }) d.roles;
  }),
)

unfoldable pub get_or_create : (role_name description : String) → Directory → Role × Directory
get_or_create role_name description d = elim (get_by_name role_name d) [
  | some role ↦ (role, d)
  | none ↦ create role_name description false d
]

-- `role.users = users`: the role is held by these users and no others.
abbrev pub hold : ℕ → List ℕ → User → User
hold i members u =
    let others = select (λ r. not (r == i)) u.roles in
    record u {
      roles =
          if contains u.id members
          then (if contains i u.roles then u.roles else u.roles ++ i ∷ [])
          else others;
    }

-- None where the role is not there, and the code raises on its first attribute.
unfoldable pub update :
    ℕ → (name description : String) → (users : List ℕ) → Directory → Option Directory
update i name description users d = elim (get i d) [
  | none ↦ none
  | some role ↦ some (
      log "update_role" name (record d {
        roles =
            modify_rows role_id i (λ r. record r { name = name; description = description })
              d.roles;
        users = map (hold i users) d.users;
      }))
]

-- The row goes, and with it the memberships; none as for `update`.
unfoldable pub delete : ℕ → Directory → Option Directory
delete i d = elim (get i d) [
  | none ↦ none
  | some role ↦ some (
      log "delete_role" role.name
        (record d { roles = drop role_id i d.roles; users = map (hold i []) d.users }))
]
