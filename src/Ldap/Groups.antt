-- ===== src/Ldap/Groups.antt =====
-- Group membership in an LDAP login, lemur/auth/ldap.py.
use lemur.Prelude.{
  ℕ, String, ◌≡◌, subst, Bool, true, false, ◌||◌, Option, none, some, List, [], ◌∷◌, ◌==◌,
  string_eq, nat_eq, contains, arith, Bool-cases, inl, inr, eq_iff,
}
use lemur.Prelude.Text.{occurs, join, occurs-concat-left, occurs-concat-right}
use lemur.Directory.{Directory}
use lemur.Directory.Roles
use lemur.Directory.Users.{Answer}
use lemur.Ldap.{Config, bind_groups, in_groups}

occurs-join :
    (group : String) (groups : List String)
    → contains group groups ≡ true
    → occurs group (join groups) ≡ true
unfolding contains
occurs-join group [] h = cc
occurs-join group (g ∷ groups) h = elim (Bool-cases (g == group)) [
  | inl e ↦
      subst (λ x. occurs x (join (g ∷ groups)) ≡ true) ((eq_iff g group).0 e)
        (occurs-concat-left g (join groups))
  | inr e ↦
      occurs-concat-right group g (join groups) (occurs-join group groups (ground (arith, e, h)))
]

-- A group that the server returns for the user is found by the test for membership, with Active
-- Directory and without it.
pub member_is_in_groups :
    (config : Config) (group : String) (lgroups : List String)
    → contains group lgroups ≡ true
    → in_groups group (bind_groups config lgroups) ≡ true
unfolding in_groups bind_groups
member_is_in_groups config group lgroups h = elim (Bool-cases config.is_active_directory) [
  | inl e ↦ rw (e, in_groups) h
  | inr e ↦ rw (e, in_groups) (occurs-join group lgroups h)
]

-- Whether a required group, where one is set, is among the groups of the user.
unfoldable pub is_member : Option String → List String → Bool
is_member none lgroups = true
is_member (some group) lgroups = group == "" || contains group lgroups

-- Whether there are roles.
unfoldable some_roles : List ℕ → Bool
some_roles [] = false
some_roles (r ∷ roles) = true

-- Whether a login was not refused.
abbrev pub is_let_in : Option Answer → Bool
is_let_in none = false
is_let_in (some a) = true
