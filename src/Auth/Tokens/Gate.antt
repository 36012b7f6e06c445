-- ===== src/Auth/Tokens/Gate.antt =====
-- Who gets past `login_required`.
use lemur.Prelude.{
  ℕ, String, ◌≡◌, refl, ◌<◌, ◌⊎◌, inl, inr, true, false, Option, none, some, List, [], ◌∷◌, arith,
  Option-cases, eq_iff,
}
use lemur.Prelude.Text.{split}
use lemur.Prelude.Int.{negsuc, shift_days, int_beq_iff}
use lemur.ApiKeys
use lemur.ApiKeys.{ApiKey, Keys, AttributeError, attribute_error, get-revoke}
use lemur.Auth.Tokens.{
  Payload, Decoded, decoded, Header, alg, Jwt, Outcome, passed, User, Site, fetch_token_header,
  caller_of, check_access_key, enter, check_payload, check_decoded, check_token, check_words,
  login_required,
}

-- The key is not revoked, and it does not expire or its time has not come.
pub record IsUsable (site : Site) (now : ℕ) (k : ApiKey) : Type 0 where
  pub live : k.revoked ≡ false
  pub in_time : (k.ttl ≡ negsuc 0) ⊎ (now < shift_days (site.from_timestamp k.issued_at) k.ttl)

check_access_key-passed :
    (site : Site) (now : ℕ) (k : ApiKey) (f : Option String → Outcome) {u : ℕ} {c : Option String}
    → check_access_key site now (some k) f ≡ passed u c
    → IsUsable site now k × (f (caller_of k.application_name) ≡ passed u c)
unfolding check_access_key
check_access_key-passed site now k f e = (
  record { live = ground arith; in_time = ground (arith, int_beq_iff k.ttl (negsuc 0)) },
  ground arith,
)

crashed-ne-passed :
    (site : Site) (now : ℕ) (f : Option String → Outcome) {u : ℕ} {c : Option String}
    → check_access_key site now none f ≡ passed u c
    → ⊥
unfolding check_access_key
crashed-ne-passed site now f e = cc

enter-passed :
    (o : Option User) (c' : Option String) {u : ℕ} {c : Option String}
    → enter o c' ≡ passed u c
    → (user : User) × (o ≡ some user) × (user.active ≡ true) × (user.id ≡ u) × (c' ≡ c)
unfolding enter
enter-passed none c' e = cc
enter-passed (some user) c' e = (user, refl, ground arith, ground arith, ground arith)

-- What admits a payload: an active user of that number, and for a payload with a key a usable key.
pub record IsAdmitted (site : Site) (now : ℕ) (payload : Payload) (u : ℕ) : Type 0 where
  pub user : User
  pub found : site.users payload.sub ≡ some user
  pub active : user.active ≡ true
  pub named : user.id ≡ u
  pub key :
      (payload.aid ≡ none)
      ⊎ ((aid : ℕ) × (k : ApiKey) × (payload.aid ≡ some aid)
          × (ApiKeys.get aid site.keys ≡ some k)
          × IsUsable site now k)

check_payload-passed :
    (site : Site) (now : ℕ) (payload : Payload) {u : ℕ} {c : Option String}
    → check_payload site now payload ≡ passed u c
    → IsAdmitted site now payload u
unfolding check_payload
check_payload-passed site now payload {u} {c} e = elim (Option-cases payload.aid) [
  | inl no_key ↦
      let (user, found, active, named, _) =
        enter-passed (site.users payload.sub) none (rw no_key at e) in
      record { user = user; found = found; active = active; named = named; key = inl no_key }
  | inr (aid, has_key) ↦ elim (Option-cases (ApiKeys.get aid site.keys)) [
    | inl missing ↦ absurd (
        crashed-ne-passed site now (enter (site.users payload.sub)) {u = u} {c = c}
          (rw (has_key, missing) at e))
    | inr (k, there) ↦
        let (usable, rest) =
          check_access_key-passed site now k (enter (site.users payload.sub)) {u = u} {c = c}
            (rw (has_key, there) at e) in
        let (user, found, active, named, _) = enter-passed (site.users payload.sub) _ rest in
        record {
          user = user;
          found = found;
          active = active;
          named = named;
          key = inr (aid, k, has_key, there, usable);
        }
  ]
]

-- An authentic request: a header of at least two words, of which the second is a token that PyJWT
-- accepts under the algorithm that its own header names, for an active user; if the token is one of
-- an API key, the key is there, is not revoked, and has not run out.
pub record IsAuthentic (jwt : Jwt) (site : Site) (now : ℕ) (header : Option String) (u : ℕ)
    : Type 0 where
  pub line : String
  pub sent : header ≡ some line
  pub scheme : String
  pub token : String
  pub more : List String
  pub words : split line ≡ scheme ∷ token ∷ more
  pub algorithm : String
  pub head : fetch_token_header jwt token ≡ alg algorithm
  pub payload : Payload
  pub genuine : jwt.decode token algorithm now ≡ decoded payload
  pub admitted : IsAdmitted site now payload u

check_decoded-passed :
    (site : Site) (now : ℕ) (d : Decoded) {u : ℕ} {c : Option String}
    → check_decoded site now d ≡ passed u c
    → (payload : Payload) × (d ≡ decoded payload) × IsAdmitted site now payload u
unfolding check_decoded
check_decoded-passed site now (decoded payload) e =
    (payload, refl, check_payload-passed site now payload e)
check_decoded-passed site now _ e = cc

Header-cases :
    (jwt : Jwt) (site : Site) (now : ℕ) (token : String) (h : Header) {u : ℕ} {c : Option String}
    → fetch_token_header jwt token ≡ h
    → check_token jwt site now token ≡ passed u c
    → (a : String) × (h ≡ alg a) × (check_decoded site now (jwt.decode token a now) ≡ passed u c)
unfolding check_token
Header-cases jwt site now token (alg a) p e = (a, refl, rw (p, check_token) at e)
Header-cases jwt site now token _ p e = let e' = rw (p, check_token) at e in cc

check_words-passed :
    (jwt : Jwt) (site : Site) (now : ℕ) (line : String) (ws : List String) {u : ℕ}
    {c : Option String}
    → split line ≡ ws
    → check_words jwt site now ws ≡ passed u c
    → IsAuthentic jwt site now (some line) u
unfolding check_words
check_words-passed jwt site now line [] p e = cc
check_words-passed jwt site now line (scheme ∷ []) p e = cc
check_words-passed jwt site now line (scheme ∷ token ∷ more) p e =
    let (a, head, e') = Header-cases jwt site now token (fetch_token_header jwt token) refl e in
    let (payload, genuine, admitted) = check_decoded-passed site now (jwt.decode token a now) e' in
    record {
      line = line;
      sent = refl;
      scheme = scheme;
      token = token;
      more = more;
      words = p;
      algorithm = a;
      head = head;
      payload = payload;
      genuine = genuine;
      admitted = admitted;
    }

-- Whoever `login_required` lets pass sent a header of at least two words, of which the second is a
-- token that PyJWT accepts under the algorithm that the token's own header names; the user of the
-- token is active; and the API key, if the token names one, is there, is not revoked, and has not run
-- out.
pub login_required-IsAuthentic :
    (jwt : Jwt) (site : Site) (now : ℕ) (header : Option String) (u : ℕ) (c : Option String)
    → login_required jwt site now header ≡ passed u c
    → IsAuthentic jwt site now header u
unfolding login_required
login_required-IsAuthentic jwt site now none u c e = cc
login_required-IsAuthentic jwt site now (some line) u c e =
    check_words-passed jwt site now line (split line) {u = u} {c = c} refl
      (ground (arith, eq_iff line ""))
