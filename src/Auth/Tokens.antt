-- ===== src/Auth/Tokens.antt =====
-- lemur/auth/service.py: `create_token`, `fetch_token_header` and `login_required`.
-- A moment is a count of seconds; one request reads the clock once. PyJWT and the JSON reader are
-- the parameter `Jwt`.
pub mod Gate
pub mod Sessions
use lemur.Prelude.{
  ℕ, String, ◌≡◌, ◌+◌, ◌*◌, Bool, true, false, not, ◌||◌, ◌&&◌, Option, none, some, List, [], ◌∷◌,
  ◌++◌, arith, ◌==◌, nat_eq, string_eq, if◌then◌else◌, leb, contains,
}
use lemur.Prelude.Text.{split, codes}
use lemur.Prelude.Int.{ℤ, pos, negsuc, int_eq, day, shift_days}
use lemur.ApiKeys
use lemur.ApiKeys.{ApiKey, Keys}
use lemur.Auth.Segments.{split_first, split_last}

pub record Payload : Type 0 where
  pub iat : ℕ
  pub exp : Option ℕ
  pub sub : ℕ
  pub aid : Option ℕ

-- What `jwt.decode` does: return the payload, or raise.
pub data Decoded : Type 0 where
  decoded : Payload → Decoded
  decode_error expired_signature invalid_token : Decoded

-- What reading the header segment does: return its "alg", or raise.
pub data Header : Type 0 where
  alg : String → Header
  bad_header other_error : Header

pub record Jwt : Type 0 where
  pub encode : Payload → String
  pub loads : List ℕ → Header
  pub decode : String → (alg : String) → (now : ℕ) → Decoded

-- The answer of the decorator: a response of its own, an exception that nothing catches, or the call
-- of the view for a user, with the application of the key.
pub data Outcome : Type 0 where
  rejected : (status : ℕ) → (message : String) → Outcome
  crashed : Outcome
  passed : (user : ℕ) → (caller_application : Option String) → Outcome

pub record User : Type 0 where
  pub id : ℕ
  pub active : Bool

pub record Site : Type 0 where
  pub keys : Keys
  pub users : ℕ → Option User
  -- `datetime.fromtimestamp`: the moment on the clock of the server's time zone
  pub from_timestamp : ℕ → ℕ

-- The payload of `create_token`; the token is its encoding.
unfoldable pub create_token :
    (token_expiration : ℕ) → (now user : ℕ) → Option ℕ → Option ℤ → Payload
unfolding shift_days
create_token token_expiration now user none ttl = record {
  iat = now;
  exp = some (now + token_expiration * day);
  sub = user;
  aid = none;
}
create_token token_expiration now user (some aid) none = record {
  iat = now;
  exp = some (now + token_expiration * day);
  sub = user;
  aid = some aid;
}
create_token token_expiration now user (some aid) (some ttl) = record {
  iat = now;
  exp = if ttl == negsuc 0 then none else some (shift_days now ttl);
  sub = user;
  aid = some aid;
}

abbrev pub dot : ℕ
dot = b'.'

-- `fetch_token_header`: two separators are needed; a `TypeError` becomes a `DecodeError`, here
-- `bad_header`, and what else the reader raises is not caught.
unfoldable pub fetch_token_header : Jwt → String → Header
fetch_token_header jwt token = elim (split_last dot (codes token)) [
  | none ↦ bad_header
  | some (signing_input, crypto_segment) ↦ elim (split_first dot signing_input) [
    | none ↦ bad_header
    | some (header_segment, payload_segment) ↦ jwt.loads header_segment
  ]
]

-- `if access_key.application_name: g.caller_application = …`
abbrev pub caller_of : Option String → Option String
caller_of none = none
caller_of (some name) = if name == "" then none else some name

-- The part under `if "aid" in payload`: a key that is missing has no attribute `revoked`.
unfoldable pub check_access_key :
    Site → (now : ℕ) → Option ApiKey → (Option String → Outcome) → Outcome
unfolding shift_days
check_access_key site now none go_on = crashed
check_access_key site now (some access_key) go_on =
    if access_key.revoked
    then rejected 403 "Token has been revoked"
    else if not (access_key.ttl == negsuc 0)
        && leb (shift_days (site.from_timestamp access_key.issued_at) access_key.ttl) now
    then rejected 403 "Token has expired"
    else go_on (caller_of access_key.application_name)

-- From `user = user_service.get(payload["sub"])` on: a user that is missing has no attribute
-- `active`.
unfoldable pub enter : Option User → Option String → Outcome
enter none caller_application = crashed
enter (some user) caller_application =
    if user.active
    then passed user.id caller_application
    else rejected 403 "User is not currently active"

unfoldable pub check_payload : Site → (now : ℕ) → Payload → Outcome
unfolding check_access_key enter
check_payload site now payload = elim payload.aid [
  | none ↦ enter (site.users payload.sub) none
  | some aid ↦
      check_access_key site now (ApiKeys.get aid site.keys) (enter (site.users payload.sub))
]

unfoldable pub check_decoded : Site → (now : ℕ) → Decoded → Outcome
check_decoded site now (decoded payload) = check_payload site now payload
check_decoded site now decode_error = rejected 403 "Token is invalid"
check_decoded site now expired_signature = rejected 403 "Token has expired"
check_decoded site now invalid_token = rejected 403 "Token is invalid"

unfoldable pub check_token : Jwt → Site → (now : ℕ) → String → Outcome
unfolding fetch_token_header check_decoded
check_token jwt site now token = elim (fetch_token_header jwt token) [
  | alg a ↦ check_decoded site now (jwt.decode token a now)
  | bad_header ↦ rejected 403 "Token is invalid"
  | other_error ↦ crashed
]

-- The second word of the header is the token, whatever the first one says.
unfoldable pub check_words : Jwt → Site → (now : ℕ) → List String → Outcome
check_words jwt site now (scheme ∷ token ∷ more) = check_token jwt site now token
check_words jwt site now _ = rejected 403 "Token is invalid"

unfoldable pub login_required : Jwt → Site → (now : ℕ) → Option String → Outcome
unfolding check_words
login_required jwt site now none = rejected 401 "Missing authorization header"
login_required jwt site now (some header) =
    if header == ""
    then rejected 401 "Missing authorization header"
    else check_words jwt site now (split header)
