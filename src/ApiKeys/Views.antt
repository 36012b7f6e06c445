-- ===== src/ApiKeys/Views.antt =====
-- lemur/api_keys/views.py: the handlers for one API key, and those that make one.
use lemur.Prelude.{ℕ, String, Bool, false, ◌||◌, none, some, [], ◌∷◌, ◌==◌, nat_eq, if◌then◌else◌}
use lemur.Prelude.Int.{ℤ}
use lemur.Auth.Permissions.{Account, Principal, can, api_key_creator_permission}
use lemur.ApiKeys.{ApiKey, Keys, get, create, update, delete, set_name, set_revoked, set_ttl}

-- A status with a message, a token for a key, a key as it is described, or that a key is deleted.
pub data Response : Type 0 where
  refused : ℕ → Response
  token described : ApiKey → Response
  deleted : Response

-- `user_id` is `data["user"]["id"]`, or the number in the address.
pub record NewKey : Type 0 where
  pub name : String
  pub user_id : ℕ
  pub ttl : ℤ

pub record KeyEdit : Type 0 where
  pub name : String
  pub revoked : Bool
  pub ttl : ℤ

-- What is asked of a key.
pub data Act : Type 0 where
  show describe remove : Act
  change : KeyEdit → Act

-- A request makes a key, or is for the key of a number: at its own address, or at that of a user.
pub data Request : Type 0 where
  make : NewKey → Request
  on_key : ℕ → Act → Request
  on_user_key : (user key : ℕ) → Act → Request

unfoldable pub may_create : Principal → Account → Bool
may_create p user = can p api_key_creator_permission user

unfoldable pub post : (now : ℕ) → Principal → Account → NewKey → Keys → Response × Keys
post now p user new s =
    let (k, s') =
      create
        (record {
          id = 0;
          name = new.name;
          user_id = new.user_id;
          ttl = new.ttl;
          issued_at = now;
          revoked = false;
          application_name = none;
        })
        s in
    if may_create p user || new.user_id == user.id then (token k, s') else (refused 403, s)

abbrev pub put : KeyEdit → ApiKey → Keys → Response × Keys
put e k s =
    let (k', s') = update k (set_name e.name ∷ set_revoked e.revoked ∷ set_ttl e.ttl ∷ []) s in
    (token k', s')

-- Once the key is found and the user may act on it.
unfoldable pub act : Act → ApiKey → Keys → Response × Keys
act show k s = (token k, s)
act describe k s = (described k, s)
act remove k s = (deleted, delete k s)
act (change e) k s = put e k s

unfoldable pub handle_key : Principal → Account → ℕ → Act → Keys → Response × Keys
handle_key p user aid a s = elim (get aid s) [
  | none ↦ (refused 404, s)
  | some k ↦
      let acted = act a k s in
      if k.user_id == user.id || may_create p user then acted else (refused 403, s)
]

unfoldable pub handle_user_key : Principal → Account → (uid aid : ℕ) → Act → Keys → Response × Keys
handle_user_key p user uid aid a s =
    if uid == user.id || may_create p user
    then elim (get aid s) [
      | none ↦ (refused 404, s)
      | some k ↦ let acted = act a k s in if k.user_id == uid then acted else (refused 403, s)
    ]
    else (refused 403, s)

unfoldable pub handle : (now : ℕ) → Principal → Account → Request → Keys → Response × Keys
handle now p user (make new) s = post now p user new s
handle now p user (on_key aid a) s = handle_key p user aid a s
handle now p user (on_user_key uid aid a) s = handle_user_key p user uid aid a s
