-- ===== src/Auth/Permissions/Grants.antt =====
-- Who is granted what.
use mathlib.Core.Bool.{◌||◌}
use lemur.Prelude.{
  Bool-cases, inl, inr, ℕ, String, ◌≡◌, refl, ap, Bool, true, false, List, [], ◌∷◌, map, arith,
  eq_iff, ◌==◌, if◌then◌else◌, any, contains, contains-append, nat_eq, string_eq,
}
use lemur.Prelude.Text.{lower}
use lemur.Auth.Permissions.{
  Value, row, nothing, chars, number, role_need, authority_creator_need, need_eq, Config,
  owner_needs, certificate_permission, authority_permission, authority_owner_need,
  strict_role_permission, authority_creator_permission, RoleRef, Account, provided_by,
  on_identity_loaded, Principal, can,
}

-- Whether one of the user's roles has the name.
unfoldable pub has_role : String → List RoleRef → Bool
has_role name [] = false
has_role name (r ∷ roles) = r.name == name || has_role name roles

contains-authorities :
    (name : String) (ids : List ℕ)
    → contains (role_need name) (map (λ a. authority_creator_need (number a)) ids) ≡ false
unfolding contains
contains-authorities name [] = refl
contains-authorities name (a ∷ ids) = ground (arith, contains-authorities name ids)

contains-provided_by :
    (name : String) (roles : List RoleRef)
    → contains (role_need name) (provided_by roles) ≡ has_role name roles
unfolding contains has_role
contains-provided_by name [] = refl
contains-provided_by name (r ∷ roles) = ground (arith, contains-provided_by name roles)

pub contains-on_identity_loaded :
    (name : String) (user : Account)
    → contains (role_need name) (on_identity_loaded user) ≡ has_role name user.roles
unfolding on_identity_loaded contains
contains-on_identity_loaded name user = ground (
  arith,
  contains-append (role_need name) (provided_by user.roles)
      (map (λ a. authority_creator_need (number a)) user.authorities),
  contains-provided_by name user.roles,
  contains-authorities name user.authorities,
)

-- Whether the user has one of the roles, in the spelling given or in lower case.
unfoldable pub has_some_role : List String → List RoleRef → Bool
has_some_role [] held = false
has_some_role (r ∷ names) held =
    (has_role r held || has_role (lower r) held) || has_some_role names held

any-owner_needs :
    (names : List String) (user : Account)
    → any (λ m. contains m (on_identity_loaded user)) (owner_needs names)
      ≡ has_some_role names user.roles
unfolding any owner_needs has_some_role
any-owner_needs [] user = refl
any-owner_needs (r ∷ names) user = ground (
  arith,
  eq_iff r (lower r),
  contains-on_identity_loaded r user,
  contains-on_identity_loaded (lower r) user,
  any-owner_needs names user,
  ap (λ n. has_role n user.roles) {x = r} {y = lower r},
)

-- Whether one of the user's roles meets the need for an owner: a text is the name of a role, and a row
-- of the roles, or `None`, is met by none.
unfoldable pub holds_owner : Value → List RoleRef → Bool
holds_owner (chars name) held = has_role name held
holds_owner _ held = false

contains-members :
    (v : Value) (held : List RoleRef)
    → contains (record { method = "role"; value = v }) (provided_by held) ≡ holds_owner v held
unfolding contains holds_owner has_role
contains-members (chars name) held = contains-provided_by name held
contains-members (number i) [] = refl
contains-members (number i) (r ∷ held) = ground (arith, contains-members (number i) held)
contains-members (row i) [] = refl
contains-members (row i) (r ∷ held) = ground (arith, contains-members (row i) held)
contains-members nothing [] = refl
contains-members nothing (r ∷ held) = ground (arith, contains-members nothing held)

contains-owner_authorities :
    (v : Value) (ids : List ℕ)
    → contains
        (record { method = "role"; value = v })
        (map (λ a. authority_creator_need (number a)) ids)
      ≡ false
unfolding contains
contains-owner_authorities v [] = refl
contains-owner_authorities v (a ∷ ids) = ground (arith, contains-owner_authorities v ids)

contains-owner :
    (v : Value) (user : Account)
    → contains (record { method = "role"; value = v }) (on_identity_loaded user)
      ≡ holds_owner v user.roles
unfolding on_identity_loaded contains
contains-owner v user = ground (
  arith,
  contains-append (record { method = "role"; value = v }) (provided_by user.roles)
      (map (λ a. authority_creator_need (number a)) user.authorities),
  contains-members v user.roles,
  contains-owner_authorities v user.authorities,
)

-- A user may act on a certificate exactly when one of the user's roles is named "admin" or "creator",
-- meets the need for the owner, or is one of the certificate's roles, in its spelling or in lower
-- case. A row of the roles, which is what the callers pass for the owner, is met by no role.
pub can-certificate_permission :
    (p : Principal) (owner : Value) (names : List String) (user : Account)
    → can p (certificate_permission owner names) user ≡ (
        has_role "admin" user.roles
        || (holds_owner owner user.roles
            || (has_role "creator" user.roles || has_some_role names user.roles)))
unfolding can certificate_permission any
can-certificate_permission p owner names user = rw (p.allows_some _ _ _) (
    ground (
      arith,
      contains-on_identity_loaded "admin" user,
      contains-owner owner user,
      contains-on_identity_loaded "creator" user,
      any-owner_needs names user,
    ))

-- Whether the user has one of the roles, spelled as given.
unfoldable pub has_any_role : List String → List RoleRef → Bool
has_any_role [] held = false
has_any_role (r ∷ names) held = has_role r held || has_any_role names held

any-role_needs :
    (names : List String) (user : Account)
    → any (λ m. contains m (on_identity_loaded user)) (map authority_owner_need names)
      ≡ has_any_role names user.roles
unfolding any has_any_role
any-role_needs [] user = refl
any-role_needs (r ∷ names) user =
    ground (arith, contains-on_identity_loaded r user, any-role_needs names user)

contains-creator_roles :
    (s : String) (roles : List RoleRef)
    → contains (authority_creator_need (chars s)) (provided_by roles) ≡ false
unfolding contains
contains-creator_roles s [] = refl
contains-creator_roles s (r ∷ roles) = ground (arith, contains-creator_roles s roles)

contains-creator_authorities :
    (s : String) (ids : List ℕ)
    → contains (authority_creator_need (chars s)) (map (λ a. authority_creator_need (number a)) ids)
      ≡ false
unfolding contains
contains-creator_authorities s [] = refl
contains-creator_authorities s (a ∷ ids) = ground (arith, contains-creator_authorities s ids)

creator_need_unmet :
    (s : String) (user : Account)
    → contains (authority_creator_need (chars s)) (on_identity_loaded user) ≡ false
unfolding on_identity_loaded contains
creator_need_unmet s user = ground (
  arith,
  contains-append (authority_creator_need (chars s)) (provided_by user.roles)
      (map (λ a. authority_creator_need (number a)) user.authorities),
  contains-creator_roles s user.roles,
  contains-creator_authorities s user.authorities,
)

-- A user may act on an authority exactly when one of the user's roles is named "admin" or is one of
-- the authority's roles, whatever authorities the user created: the need for the creator names the
-- authority by a text and the identity provides its number, so it is never met.
pub can-authority_permission :
    (p : Principal) (str : ℕ → String) (id : ℕ) (names : List String) (user : Account)
    → can p (authority_permission str id names) user
      ≡ (has_role "admin" user.roles || has_any_role names user.roles)
unfolding can authority_permission any
can-authority_permission p str id names user = rw (p.allows_some _ _ _) (
    ground (
      arith,
      contains-on_identity_loaded "admin" user,
      creator_need_unmet (str id) user,
      any-role_needs names user,
    ))

-- Without strict enforcement everybody passes; with it, exactly who has the role "admin" or
-- "operator". The creation of an authority is open to everybody, unless it is kept for "admin".
pub can-configured :
    (p : Principal) (config : Config) (user : Account)
    → (can p (strict_role_permission config) user ≡ (
        if config.strict_role_enforcement
        then has_role "admin" user.roles || has_role "operator" user.roles
        else true))
      × (can p (authority_creator_permission config) user
          ≡ (if config.admin_only_authority_creation then has_role "admin" user.roles else true))
unfolding can strict_role_permission authority_creator_permission any
can-configured p config user = (
  elim (Bool-cases config.strict_role_enforcement) [
    | inl on ↦
        rw (on, p.allows_some _ _ _)
          (ground (
            arith,
            contains-on_identity_loaded "admin" user,
            contains-on_identity_loaded "operator" user,
          ))
    | inr off ↦ rw off (p.allows_none _)
  ],
  elim (Bool-cases config.admin_only_authority_creation) [
    | inl on ↦
        rw (on, p.allows_some _ _ _) (ground (arith, contains-on_identity_loaded "admin" user))
    | inr off ↦ rw off (p.allows_none _)
  ],
)
