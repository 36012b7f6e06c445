-- ===== src/Tests/Access.antt =====
-- Examples for lemur/auth/permissions.py, lemur/auth/service.py and lemur/api_keys/service.py.
use lemur.Prelude.{
  ℕ, String, ◌≡◌, refl, inl, inr, Bool, true, false, Option, none, some, List, [], ◌∷◌, any,
  contains, arith, if◌then◌else◌,
}
use lemur.Prelude.Text.{lower, split}
use lemur.Prelude.Int.{negsuc}
use lemur.ApiKeys
use lemur.ApiKeys.{ApiKey, Keys, get-revoke}
use lemur.Auth.Permissions.{
  row, Need, need_eq, Config, Account, Principal, can, certificate_permission, authority_permission,
}
use lemur.Auth.Permissions.Grants.{
  has_role, has_some_role, holds_owner, has_any_role, can-certificate_permission,
  can-authority_permission,
}
use lemur.ApiKeys.Views.{remove, on_key, handle}
use lemur.ApiKeys.Ownership.{Private, handle-Private}
use lemur.Auth.Tokens.{
  Payload, decoded, expired_signature, alg, Jwt, rejected, passed, User, Site, create_token,
  login_required,
}
use lemur.Auth.Tokens.Gate.{IsAuthentic, login_required-IsAuthentic}
use lemur.Auth.Tokens.Sessions.{IsIssued, Bears, has_expired, session_life, revoked_key_refused}

abbrev allows : List Need → List Need → Bool
allows [] provides = true
allows (n ∷ needs) provides = any (λ m. contains m provides) (n ∷ needs)

abbrev principal : Principal
principal = record {
  allows = allows;
  allows_none = λ provides. refl;
  allows_some = λ n needs provides. refl;
}

abbrev alice : Account
alice = record { id = 1; roles = record { id = 5; name = "ops" } ∷ []; authorities = 7 ∷ [] }

can-certificate_permission_example :
    can principal (certificate_permission (row 9) ("Ops" ∷ [])) alice ≡ true
unfolding has_role has_some_role holds_owner lower
can-certificate_permission_example = can-certificate_permission principal (row 9) ("Ops" ∷ []) alice

can-authority_permission_example :
    can principal (authority_permission (λ n. "7") 7 ("dev" ∷ [])) alice ≡ false
unfolding has_role has_any_role
can-authority_permission_example =
    can-authority_permission principal (λ n. "7") 7 ("dev" ∷ []) alice

abbrev strict : Config
strict = record {
  sensitive_domain_roles = [];
  admin_only_authority_creation = true;
  strict_role_enforcement = true;
}

abbrev key : ApiKey
key = record {
  id = 3;
  name = "deploy";
  user_id = 1;
  ttl = negsuc 0;
  issued_at = 1000;
  revoked = false;
  application_name = some "spinnaker";
}

abbrev keys : Keys
keys = record { rows = key ∷ []; next_id = 4; audit = [] }

abbrev user : User
user = record { id = 1; active = true }

abbrev site : Site
site = record { keys = keys; users = λ i. some user; from_timestamp = λ t. t }

-- A reader of tokens that knows one payload.
abbrev jwt : Payload → Jwt
jwt p = record {
  encode = λ q. "h.b.s";
  loads = λ segment. alg "HS256";
  decode = λ token a now. if has_expired p.exp now then expired_signature else decoded p;
}

issued : (p : Payload) → IsIssued (jwt p) p
unfolding contains
issued p = record {
  head = b'h' ∷ [];
  body = b'b' ∷ [];
  signature = b's' ∷ [];
  segments = refl;
  head_plain = refl;
  signature_plain = refl;
  head_loads = refl;
  decodes = λ now h. refl;
}

bears : Bears "Bearer h.b.s" "h.b.s"
unfolding split
bears = record { scheme = "Bearer"; more = []; words = refl }

abbrev session : Payload
session = record { iat = 1000; exp = some 87400; sub = 1; aid = none }

abbrev of_key : Payload
of_key = record { iat = 1000; exp = none; sub = 1; aid = some 3 }

session_life_example : login_required (jwt session) site 2000 (some "Bearer h.b.s") ≡ passed 1 none
unfolding create_token
session_life_example =
    session_life (jwt session) site 1 1000 1 none user "Bearer h.b.s" 2000 refl refl
      (issued session) bears (omega arith)

revoked_key_refused_example :
    login_required
      (jwt of_key)
      (record site { keys = (ApiKeys.revoke 3 keys).1 })
      90000
      (some "Bearer h.b.s")
    ≡ rejected 403 "Token has been revoked"
unfolding ApiKeys.get lemur.Prelude.Table.find lemur.Prelude.Table.first
revoked_key_refused_example =
    revoked_key_refused (jwt of_key) site of_key 3 key "Bearer h.b.s" 90000 refl refl
      (issued of_key) bears (omega arith)

login_required-IsAuthentic_example : IsAuthentic (jwt session) site 2000 (some "Bearer h.b.s") 1
unfolding create_token
login_required-IsAuthentic_example =
    login_required-IsAuthentic (jwt session) site 2000 (some "Bearer h.b.s") 1 none (
      session_life (jwt session) site 1 1000 1 none user "Bearer h.b.s" 2000 refl refl
        (issued session) bears (omega arith))

lower_runs : lower "Admin@X" ≡ "admin@x"
unfolding lower
lower_runs = refl

split_runs : split " Bearer  a.b " ≡ "Bearer" ∷ "a.b" ∷ []
unfolding split
split_runs = refl

abbrev bob : Account
bob = record { id = 2; roles = []; authorities = [] }

-- The key is of the first user.
handle-Private_example : Private 2 keys (handle 5 principal bob (on_key 3 remove) keys)
unfolding has_role
handle-Private_example = handle-Private 5 principal bob (on_key 3 remove) keys refl
