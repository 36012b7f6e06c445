-- ===== src/Directory.antt =====
-- The directory: the tables of roles and users, with lemur/roles/service.py and
-- lemur/users/service.py. A role is held by its number in `User.roles`; what is logged is left out
-- but for the audit log. A commit of one column is an update of the rows of that number.
pub mod Roles
pub mod Users
use lemur.Prelude.{
  ℕ, String, ◌≡◌, ◌+◌, Bool, true, false, not, ◌&&◌, Option, none, some, List, [], ◌∷◌, ◌++◌, ◌==◌,
  nat_eq, string_eq, if◌then◌else◌, select, any, contains, map,
}
use lemur.Prelude.Table.{first, find, drop}

pub record Role : Type 0 where
  pub id : ℕ
  pub name : String
  pub description : String
  pub third_party : Bool

pub record User : Type 0 where
  pub id : ℕ
  pub username : String
  pub email : String
  pub active : Bool
  pub profile_picture : String
  pub roles : List ℕ

pub record Directory : Type 0 where
  pub roles : List Role
  pub next_role : ℕ
  pub users : List User
  pub next_user : ℕ
  pub audit : List (String × String)

abbrev pub role_id : Role → ℕ
role_id r = r.id

abbrev pub user_id : User → ℕ
user_id u = u.id

abbrev pub log : String → String → Directory → Directory
log action entity d = record d { audit = (action, entity) ∷ d.audit }

-- A line of the audit log that is written under a condition.
abbrev pub log_when : Bool → String → String → Directory → Directory
log_when b action entity d = record d { audit = if b then (action, entity) ∷ d.audit else d.audit }

-- `UPDATE … SET … WHERE id = i`
unfoldable pub modify_rows : {A : Type 0} → (A → ℕ) → ℕ → (A → A) → List A → List A
modify_rows key i change [] = []
modify_rows key i change (r ∷ rows) =
    (if key r == i then change r else r) ∷ modify_rows key i change rows
