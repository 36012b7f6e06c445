-- ===== src/Auth/Permissions.antt =====
-- lemur/auth/permissions.py, and `on_identity_loaded` of lemur/auth/service.py.
-- A need is flask_principal's named tuple; named tuples compare as plain tuples, so the classes
-- `CertificateOwner`, `AuthorityOwner` and flask_principal's `Need` make equal values.
pub mod Grants
use lemur.Prelude.{
  ℕ, String, ◌≡◌, ◌↔◌, Bool, true, false, ◌&&◌, List, [], ◌∷◌, ◌++◌, map, arith, eq_iff, ◌==◌, Eq,
  if◌then◌else◌, any, contains, nat_beq, nat_eq, string_eq,
}
use lemur.Prelude.Text.{lower}

-- The second field of a need: a text, a number of the database, a row of it (here a role, by its
-- number) or `None`. In Python `"5" == 5` is false, and a row equals only itself.
pub data Value : Type 0 where
  chars : String → Value
  number row : ℕ → Value
  nothing : Value

pub record Need : Type 0 where
  pub method : String
  pub value : Value

abbrev pub value_beq : Value → Value → Bool
value_beq (chars a) (chars b) = a == b
value_beq (number a) (number b) = a == b
value_beq (row a) (row b) = a == b
value_beq nothing nothing = true
value_beq _ _ = false

pub value_beq_iff : (a b : Value) → (value_beq a b ≡ true) ↔ (a ≡ b)
value_beq_iff (chars a) (chars b) = ground (arith, eq_iff a b)
value_beq_iff (number a) (number b) = ground arith
value_beq_iff (row a) (row b) = ground arith
value_beq_iff nothing nothing = ground arith
value_beq_iff _ _ = ground arith

abbrev pub need_beq : Need → Need → Bool
need_beq a b = a.method == b.method && value_beq a.value b.value

pub need_beq_iff : (a b : Need) → (need_beq a b ≡ true) ↔ (a ≡ b)
need_beq_iff a b = ground (arith, eq_iff a.method b.method, value_beq_iff a.value b.value)

instance abbrev pub need_eq : Eq Need
need_eq = record { same = need_beq; same_iff = need_beq_iff }

abbrev pub role_need : String → Need
role_need name = record { method = "role"; value = chars name }

abbrev pub certificate_owner_need : String → Need
certificate_owner_need name = record { method = "role"; value = chars name }

abbrev pub authority_owner_need : String → Need
authority_owner_need name = record { method = "role"; value = chars name }

abbrev pub role_member_need : ℕ → Need
role_member_need id = record { method = "member"; value = number id }

-- `AuthorityCreatorNeed(v)`: the caller chooses the kind of `v`.
abbrev pub authority_creator_need : Value → Need
authority_creator_need v = record { method = "authorityUse"; value = v }

pub record Config : Type 0 where
  pub sensitive_domain_roles : List String
  pub admin_only_authority_creation : Bool
  pub strict_role_enforcement : Bool

-- `SensitiveDomainPermission`
unfoldable pub sensitive_domain_permission : Config → List Need
sensitive_domain_permission config = role_need "admin" ∷ map role_need config.sensitive_domain_roles

-- The loop of `CertificatePermission` over the roles, a second need for a name in mixed case.
unfoldable pub owner_needs : List String → List Need
owner_needs [] = []
owner_needs (r ∷ roles) =
    certificate_owner_need r
    ∷ ((if r == lower r then [] else certificate_owner_need (lower r) ∷ []) ++ owner_needs roles)

-- `RoleNeed(owner)` takes what the caller passes, which is a row of the roles or `None`.
unfoldable pub certificate_permission : Value → List String → List Need
unfolding owner_needs
certificate_permission owner roles =
    role_need "admin"
    ∷ record { method = "role"; value = owner }
    ∷ role_need "creator"
    ∷ owner_needs roles

unfoldable pub api_key_creator_permission : List Need
api_key_creator_permission = role_need "admin" ∷ []

unfoldable pub role_member_permission : ℕ → List Need
role_member_permission role_id = role_need "admin" ∷ role_member_need role_id ∷ []

unfoldable pub authority_creator_permission : Config → List Need
authority_creator_permission config =
    if config.admin_only_authority_creation then role_need "admin" ∷ [] else []

-- `str(authority_id)` is a parameter: only that it is a text matters.
unfoldable pub authority_permission : (str : ℕ → String) → ℕ → List String → List Need
authority_permission str authority_id roles =
    role_need "admin"
    ∷ authority_creator_need (chars (str authority_id))
    ∷ map authority_owner_need roles

unfoldable pub strict_role_permission : Config → List Need
strict_role_permission config =
    if config.strict_role_enforcement then role_need "admin" ∷ role_need "operator" ∷ [] else []

pub record RoleRef : Type 0 where
  pub id : ℕ
  pub name : String

pub record Account : Type 0 where
  pub id : ℕ
  pub roles : List RoleRef
  pub authorities : List ℕ

abbrev pub provided_by : List RoleRef → List Need
provided_by [] = []
provided_by (role ∷ roles) = role_need role.name ∷ role_member_need role.id ∷ provided_by roles

-- What `on_identity_loaded` adds to `identity.provides`.
unfoldable pub on_identity_loaded : Account → List Need
on_identity_loaded user =
    record { method = "id"; value = number user.id }
    ∷ (provided_by user.roles ++ map (λ a. authority_creator_need (number a)) user.authorities)

-- flask_principal, as the code relies on it: a permission with no need is granted to everybody, any
-- other to who provides one of its needs.
pub record Principal : Type 0 where
  pub allows : List Need → List Need → Bool
  pub allows_none : (provides : List Need) → allows [] provides ≡ true
  pub allows_some :
      (n : Need) (needs provides : List Need)
      → allows (n ∷ needs) provides ≡ any (λ m. contains m provides) (n ∷ needs)

-- `Permission.can()` for the logged-in user.
unfoldable pub can : Principal → List Need → Account → Bool
unfolding on_identity_loaded
can p needs user = p.allows needs (on_identity_loaded user)
