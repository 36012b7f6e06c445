-- ===== src/ApiKeys/Ownership.antt =====
-- What a user who is not "admin" reaches of the keys.
use lemur.Prelude.{
  ℕ, Bool, true, false, ◌≡◌, ◌≢◌, refl, sym, ap, ◌∙◌, none, some, ◌==◌, nat_eq, nat_beq_iff, any,
  arith, Option-cases, Bool-cases, inl, inr,
}
use lemur.Prelude.Table.{find, first-append, find-put, find-drop, find-key}
use lemur.Auth.Permissions.{Account, Principal, can, api_key_creator_permission}
use lemur.Auth.Permissions.Grants.{has_role, contains-on_identity_loaded}
use lemur.ApiKeys.{ApiKey, Keys, key_id, get, create, update, delete}
use lemur.ApiKeys.Views.{
  Response, refused, token, described, NewKey, Act, show, describe, remove, change, Request, make,
  on_key, on_user_key, may_create, post, act, handle_key, handle_user_key, handle,
}

may_create_lem : (p : Principal) (user : Account) → may_create p user ≡ has_role "admin" user.roles
unfolding may_create api_key_creator_permission can any
may_create_lem p user =
    rw (p.allows_some _ _ _) (ground (arith, contains-on_identity_loaded "admin" user))

-- Whether what a response tells of is a key of the user.
unfoldable pub tells_own : ℕ → Response → Bool
tells_own uid (token k) = k.user_id == uid
tells_own uid (described k) = k.user_id == uid
tells_own uid _ = true

-- Every key of another user is left, and the response tells of no such key.
abbrev pub Private : ℕ → Keys → Response × Keys → Type 0
Private uid s answer =
    ((j : ℕ) (k : ApiKey) → get j s ≡ some k → k.user_id ≢ uid → get j answer.1 ≡ some k)
    × (tells_own uid answer.0 ≡ true)

Private-refused : (uid n : ℕ) (s : Keys) → Private uid s (refused n, s)
unfolding tells_own
Private-refused uid n s = (λ j k h o. h, refl)

some_injective : {A : Type 0} {a b : A} → some a ≡ some b → a ≡ b
some_injective e = cc

apart :
    (uid j : ℕ) (d k : ApiKey) (s : Keys)
    → get d.id s ≡ some d
    → d.user_id ≡ uid
    → get j s ≡ some k
    → k.user_id ≢ uid
    → (d.id == j) ≡ false
apart uid j d k s f o h n = elim (Bool-cases (d.id == j)) [
  | inr e ↦ e
  | inl e ↦ absurd (n (sym (ap (λ (x : ApiKey). x.user_id) (same e)) ∙ o))
]
  where
    same : (d.id == j) ≡ true → d ≡ k
    same e = some_injective (sym f ∙ (ap (λ i. get i s) ((nat_beq_iff d.id j).0 e) ∙ h))

act-Private :
    (uid : ℕ) (a : Act) (d : ApiKey) (s : Keys)
    → get d.id s ≡ some d
    → d.user_id ≡ uid
    → Private uid s (act a d s)
unfolding act tells_own update delete get
act-Private uid show d s f o = (λ j k h n. h, ground (arith, o, nat_beq_iff d.user_id uid))
act-Private uid describe d s f o = (λ j k h n. h, ground (arith, o, nat_beq_iff d.user_id uid))
act-Private uid remove d s f o =
    (λ j k h n. ground (arith, find-drop key_id d.id j s.rows, apart uid j d k s f o h n, h), refl)
act-Private uid (change e) d s f o = (
  λ j k h n. ground (
    arith,
    find-put key_id j (record d { name = e.name; ttl = e.ttl; revoked = e.revoked }) s.rows,
    apart uid j d k s f o h n,
    h,
  ),
  ground (arith, o, nat_beq_iff d.user_id uid),
)

post-Private :
    (now : ℕ) (p : Principal) (user : Account) (new : NewKey) (s : Keys)
    → may_create p user ≡ false
    → Private user.id s (post now p user new s)
unfolding post create get tells_own find
post-Private now p user new s h = elim (Bool-cases (new.user_id == user.id)) [
  | inr e ↦ rw (h, e) (Private-refused user.id 403 s)
  | inl e ↦ rw (h, e) (λ j k g n. kept j k g, e)
]
  where
    kept :
        (j : ℕ) (k : ApiKey)
        → find key_id j s.rows ≡ some k
        → find key_id j
            (create
              (record {
                id = 0;
                name = new.name;
                user_id = new.user_id;
                ttl = new.ttl;
                issued_at = now;
                revoked = false;
                application_name = none;
              })
              s).1.rows
          ≡ some k
    kept j k g = first-append (λ r. key_id r == j) s.rows _ ∙ rw g refl

found_key : (aid : ℕ) (k : ApiKey) (s : Keys) → get aid s ≡ some k → get k.id s ≡ some k
unfolding get
found_key aid k s e = ap (λ i. find key_id i s.rows) (find-key key_id aid s.rows e) ∙ e

handle_key-Private :
    (p : Principal) (user : Account) (aid : ℕ) (a : Act) (s : Keys)
    → may_create p user ≡ false
    → Private user.id s (handle_key p user aid a s)
unfolding handle_key
handle_key-Private p user aid a s h = elim (Option-cases (get aid s)) [
  | inl e ↦ rw (e, handle_key) (Private-refused user.id 404 s)
  | inr (k, e) ↦ elim (Bool-cases (k.user_id == user.id)) [
    | inr o ↦ rw (e, o, h, handle_key) (Private-refused user.id 403 s)
    | inl o ↦
        rw (e, o, handle_key)
          (act-Private user.id a k s (found_key aid k s e) ((nat_beq_iff k.user_id user.id).0 o))
  ]
]

handle_user_key-Private :
    (p : Principal) (user : Account) (uid aid : ℕ) (a : Act) (s : Keys)
    → may_create p user ≡ false
    → Private user.id s (handle_user_key p user uid aid a s)
unfolding handle_user_key
handle_user_key-Private p user uid aid a s h = elim (Bool-cases (uid == user.id)) [
  | inr o ↦ rw (o, h, handle_user_key) (Private-refused user.id 403 s)
  | inl o ↦ elim (Option-cases (get aid s)) [
    | inl e ↦ rw (o, e, handle_user_key) (Private-refused user.id 404 s)
    | inr (k, e) ↦ elim (Bool-cases (k.user_id == uid)) [
      | inr q ↦ rw (o, e, q, handle_user_key) (Private-refused user.id 403 s)
      | inl q ↦
          rw (o, e, q, handle_user_key)
            (act-Private user.id a k s (found_key aid k s e)
              ((nat_beq_iff k.user_id uid).0 q ∙ (nat_beq_iff uid user.id).0 o))
    ]
  ]
]

-- A request of a user without the role "admin" leaves every key of every other user as it is, and its
-- answer is no token and no description of such a key, whatever number or user it names.
pub handle-Private :
    (now : ℕ) (p : Principal) (user : Account) (r : Request) (s : Keys)
    → has_role "admin" user.roles ≡ false
    → Private user.id s (handle now p user r s)
unfolding handle
handle-Private now p user (make new) s h = post-Private now p user new s (may_create_lem p user ∙ h)
handle-Private now p user (on_key aid a) s h =
    handle_key-Private p user aid a s (may_create_lem p user ∙ h)
handle-Private now p user (on_user_key uid aid a) s h =
    handle_user_key-Private p user uid aid a s (may_create_lem p user ∙ h)
