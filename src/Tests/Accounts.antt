-- ===== src/Tests/Accounts.antt =====
-- Examples for roles and users, and for the two kinds of login.
use lemur.Prelude.{
  ◌||◌, ℕ, ◌≡◌, refl, nat_eq, string_eq, true, false, none, some, List, [], ◌∷◌, all, contains,
}
use lemur.Prelude.Table.{find, first}
use lemur.Directory.{Role, User, Directory, user_id}
use lemur.Directory.Users.{saved, update_roles}
use lemur.Directory.Users.Membership.{staying, update_roles_as_wanted}
use lemur.Sso.{Profile, create_user_roles, update_user, is_third_party, keep_own}
use lemur.Sso.Granted.{granted}
use lemur.Sso.Login.{names, create_user_roles_grants}
use lemur.Sso.Account.{update_user_gives}
use lemur.Ldap.{Config, LdapPrincipal}

abbrev wanted_roles : List ℕ
wanted_roles = 2 ∷ []

abbrev held_roles : List ℕ
held_roles = 1 ∷ 5 ∷ 6 ∷ []

update_roles_as_wanted_example :
    contains 5 (update_roles wanted_roles held_roles)
    ≡ (contains 5 (staying wanted_roles 0 held_roles) || contains 5 wanted_roles)
update_roles_as_wanted_example = update_roles_as_wanted wanted_roles held_roles 5

abbrev ops : Role
ops = record { id = 1; name = "ops"; description = ""; third_party = false }

abbrev bob : User
bob = record {
  id = 1;
  username = "bob@example.com";
  email = "bob@example.com";
  active = true;
  profile_picture = "";
  roles = 1 ∷ [];
}

abbrev tables : Directory
tables = record { roles = ops ∷ []; next_role = 2; users = bob ∷ []; next_user = 2; audit = [] }

abbrev profile : Profile
profile = record {
  email = "bob@example.com";
  thumbnail = "";
  google_groups = some ("ops" ∷ "dev" ∷ []);
}

create_user_roles_grants_example :
    all
      (granted
        (create_user_roles (some "read-only") profile tables).1
        (create_user_roles (some "read-only") profile tables).0)
      ("ops" ∷ "dev" ∷ "bob@example.com" ∷ "read-only" ∷ [])
    ≡ true
unfolding names lemur.Sso.Login.sent lemur.Sso.Login.names_of
create_user_roles_grants_example = create_user_roles_grants (some "read-only") profile tables

update_user_gives_example :
    (u' : User) × ((update_user false (some bob) profile (4 ∷ []) tables).0 ≡ saved u')
    × (find user_id 1 (update_user false (some bob) profile (4 ∷ []) tables).1.users ≡ some u')
    × (contains 1 u'.roles ≡ true)
unfolding find first contains is_third_party
update_user_gives_example = update_user_gives bob profile (4 ∷ []) tables 1 refl refl

abbrev config : Config
config = record {
  default_role = none;
  required_group = some "lemur";
  groups_to_roles = ("lemur", "ops") ∷ [];
  is_active_directory = true;
}

abbrev eve : LdapPrincipal
eve = record { principal = "eve@example.com"; username = "eve" }
