-- ===== src/Auth/Tokens/Sessions.antt =====
-- The life of a token, from `create_token` to `login_required`.
use lemur.Prelude.{
  ℕ, String, ◌≡◌, refl, ap, ◌+◌, ◌*◌, ◌≤◌, Bool, true, false, Option, none, some, List, [], ◌∷◌,
  ◌++◌, if◌then◌else◌, leb, contains, nat_eq, string_eq, ◌==◌, eq_iff, beq_refl, Bool-cases, inl,
  inr,
}
use lemur.Prelude.Text.{split, codes}
use lemur.Prelude.Int.{ℤ, negsuc, day}
use lemur.ApiKeys
use lemur.ApiKeys.{ApiKey, get-revoke}
use lemur.Auth.Segments.{split_first-append, split_last-append}
use lemur.Auth.Tokens.{
  Payload, decoded, expired_signature, alg, Jwt, rejected, passed, User, Site, dot, create_token,
  fetch_token_header, caller_of, check_access_key, enter, check_payload, check_decoded, check_token,
  login_required,
}

abbrev pub has_expired : Option ℕ → ℕ → Bool
has_expired none now = false
has_expired (some exp) now = leb exp now

-- What PyJWT does with one payload: its token has three segments with no separator in them, the
-- first of which names HS256; and from the moment of issue on, decoding gives the payload back until
-- its expiry, at which it raises `ExpiredSignatureError`.
pub record IsIssued (jwt : Jwt) (p : Payload) : Type 0 where
  pub head : List ℕ
  pub body : List ℕ
  pub signature : List ℕ
  pub segments : codes (jwt.encode p) ≡ (head ++ dot ∷ body) ++ dot ∷ signature
  pub head_plain : contains dot head ≡ false
  pub signature_plain : contains dot signature ≡ false
  pub head_loads : jwt.loads head ≡ alg "HS256"
  pub decodes :
      (now : ℕ)
      → p.iat ≤ now
      → jwt.decode (jwt.encode p) "HS256" now
        ≡ (if has_expired p.exp now then expired_signature else decoded p)

-- A request whose second word is the token.
pub record Bears (line token : String) : Type 0 where
  pub scheme : String
  pub more : List String
  pub words : split line ≡ scheme ∷ token ∷ more

split-empty : split "" ≡ []
unfolding split
split-empty = refl

Bears-not_empty : {line token : String} → Bears line token → line ≡ "" → ⊥
Bears-not_empty b e = cc (ap split e, b.words, split-empty)

login_required-Bears :
    (jwt : Jwt) (site : Site) (now : ℕ) {line token : String}
    → Bears line token
    → login_required jwt site now (some line) ≡ check_token jwt site now token
unfolding login_required
login_required-Bears jwt site now {line} b = elim (Bool-cases (line == "")) [
  | inl e ↦ absurd (Bears-not_empty b ((eq_iff line "").0 e))
  | inr e ↦ rw (e, b.words)
]

fetch_token_header-encode :
    (jwt : Jwt) {p : Payload} → IsIssued jwt p → fetch_token_header jwt (jwt.encode p) ≡ alg "HS256"
unfolding fetch_token_header
fetch_token_header-encode jwt {p} i =
    rw (i.segments, fetch_token_header)
      (rw
        (
          split_last-append dot (i.head ++ dot ∷ i.body) i.signature i.signature_plain,
          fetch_token_header,
        )
        (rw (split_first-append dot i.head i.body i.head_plain, fetch_token_header) i.head_loads))

-- The request that bears an issued token, from its issue on.
login_required-encode :
    (jwt : Jwt) (site : Site) (now : ℕ) (p : Payload) {line : String}
    → IsIssued jwt p
    → Bears line (jwt.encode p)
    → p.iat ≤ now
    → login_required jwt site now (some line) ≡ (
        if has_expired p.exp now
        then rejected 403 "Token has expired"
        else check_payload site now p)
unfolding check_token check_decoded
login_required-encode jwt site now p i b h = rw (login_required-Bears jwt site now b) (
    rw (fetch_token_header-encode jwt i, check_token)
      (rw (i.decodes now h)
        (elim (Bool-cases (has_expired p.exp now)) [ inl late ↦ rw late | inr early ↦ rw early ])))

-- A token that `create_token` makes for an active user, of no API key, admits that user from its
-- issue until the configured number of days has passed, and is refused as expired from then on; a
-- custom lifetime changes nothing.
pub session_life :
    (jwt : Jwt) (site : Site) (days issue uid : ℕ) (ttl : Option ℤ) (user : User) (line : String)
    (now : ℕ)
    → site.users uid ≡ some user
    → user.active ≡ true
    → IsIssued jwt (create_token days issue uid none ttl)
    → Bears line (jwt.encode (create_token days issue uid none ttl))
    → issue ≤ now
    → login_required jwt site now (some line) ≡ (
        if leb (issue + days * day) now
        then rejected 403 "Token has expired"
        else passed user.id none)
unfolding create_token check_payload enter
session_life jwt site days issue uid ttl user line now found active i b h =
    rw (login_required-encode jwt site now (create_token days issue uid none ttl) i b h)
      (elim (Bool-cases (leb (issue + days * day) now)) [
        | inl late ↦ rw late
        | inr early ↦ rw (early, found, enter) (rw active)
      ])

-- A token of an API key whose lifetime is -1, made for the key's lifetime, admits the active user
-- at every moment from its issue on, under the key's application, as long as the key is there and
-- is not revoked.
pub key_forever :
    (jwt : Jwt) (site : Site) (days issue uid aid : ℕ) (user : User) (k : ApiKey) (line : String)
    (now : ℕ)
    → site.users uid ≡ some user
    → user.active ≡ true
    → ApiKeys.get aid site.keys ≡ some k
    → k.revoked ≡ false
    → k.ttl ≡ negsuc 0
    → IsIssued jwt (create_token days issue uid (some aid) (some (negsuc 0)))
    → Bears line (jwt.encode (create_token days issue uid (some aid) (some (negsuc 0))))
    → issue ≤ now
    → login_required jwt site now (some line) ≡ passed user.id (caller_of k.application_name)
unfolding create_token check_payload check_access_key enter
key_forever jwt site days issue uid aid user k line now found active there live ttl i b h =
    rw
      (login_required-encode jwt site now (create_token days issue uid (some aid) (some (negsuc 0)))
        i b h)
      (rw (there, check_access_key) (rw live (rw ttl (rw found (rw active)))))

get-revoke_self :
    (aid : ℕ) (keys : ApiKeys.Keys) {k : ApiKey}
    → ApiKeys.get aid keys ≡ some k
    → ApiKeys.get aid (ApiKeys.revoke aid keys).1 ≡ some (record k { revoked = true })
get-revoke_self aid keys there = rw (get-revoke aid aid keys, beq_refl aid) (rw there)

-- Once a key that is there is revoked, no request with a token of that key is admitted at any
-- moment, whatever the lifetimes: it is answered as revoked, or as expired if the token has expired.
pub revoked_key_refused :
    (jwt : Jwt) (site : Site) (p : Payload) (aid : ℕ) (k : ApiKey) (line : String) (now : ℕ)
    → p.aid ≡ some aid
    → ApiKeys.get aid site.keys ≡ some k
    → IsIssued jwt p
    → Bears line (jwt.encode p)
    → p.iat ≤ now
    → login_required jwt (record site { keys = (ApiKeys.revoke aid site.keys).1 }) now (some line)
      ≡ rejected 403
          (if has_expired p.exp now then "Token has expired" else "Token has been revoked")
unfolding check_payload check_access_key
revoked_key_refused jwt site p aid k line now owns there i b h =
    rw
      (login_required-encode jwt (record site { keys = (ApiKeys.revoke aid site.keys).1 }) now p i b
        h)
      (elim (Bool-cases (has_expired p.exp now)) [
        | inl late ↦ rw late
        | inr early ↦ rw (early, owns, check_payload) (rw (get-revoke_self aid site.keys there))
      ])
