-- ===== src/ApiKeys.antt =====
-- lemur/api_keys/service.py: the keys that grant access to the API.
pub mod Views
pub mod Ownership
use lemur.Prelude.{
  ℕ, String, ◌≡◌, Bool, true, Option, none, some, List, [], ◌∷◌, ◌++◌, arith, if◌then◌else◌, ◌+◌,
  Option-cases, inl, inr, ◌==◌, nat_eq,
}
use lemur.Prelude.Int.{ℤ}
use lemur.Prelude.Table.{find, put, drop, find-put, find-key}
use lemur.Prelude.Result.{ok, err, Exec}

pub record ApiKey : Type 0 where
  pub id : ℕ
  pub name : String
  pub user_id : ℕ
  pub ttl : ℤ
  pub issued_at : ℕ
  pub revoked : Bool
  pub application_name : Option String

pub data AttributeError : Type 0 where
  attribute_error : AttributeError

-- The table and the actions that the audit log has received, the last one first.
pub record Keys : Type 0 where
  pub rows : List ApiKey
  pub next_id : ℕ
  pub audit : List (String × String)

abbrev pub key_id : ApiKey → ℕ
key_id k = k.id

abbrev log : String → String → Keys → Keys
log action entity s = record s { audit = (action, entity) ∷ s.audit }

unfoldable pub get : ℕ → Keys → Option ApiKey
get aid s = find key_id aid s.rows

-- `api_key = get(aid)`, `setattr(api_key, "revoked", True)`: with no such key the `setattr` raises, and
-- nothing is written.
unfoldable pub revoke : ℕ → Exec AttributeError Keys ApiKey
unfolding get
revoke aid s = elim (get aid s) [
  | none ↦ (err attribute_error, s)
  | some k ↦
      let k' = record k { revoked = true } in
      (ok k', log "revoke_api_key" k.name (record s { rows = put key_id k' s.rows }))
]

-- The row is written under the next number of the sequence.
unfoldable pub create : ApiKey → Keys → ApiKey × Keys
create k s =
    let k' = record k { id = s.next_id } in
    (
      k',
      log "create_api_key" k.name (record s { rows = s.rows ++ k' ∷ []; next_id = s.next_id + 1 }),
    )

-- One keyword argument of `update`.
pub data Change : Type 0 where
  set_name : String → Change
  set_user_id : ℕ → Change
  set_ttl : ℤ → Change
  set_issued_at : ℕ → Change
  set_revoked : Bool → Change
  set_application_name : Option String → Change

abbrev setattr : Change → ApiKey → ApiKey
setattr (set_name v) k = record k { name = v }
setattr (set_user_id v) k = record k { user_id = v }
setattr (set_ttl v) k = record k { ttl = v }
setattr (set_issued_at v) k = record k { issued_at = v }
setattr (set_revoked v) k = record k { revoked = v }
setattr (set_application_name v) k = record k { application_name = v }

abbrev setattrs : List Change → ApiKey → ApiKey
setattrs [] k = k
setattrs (c ∷ cs) k = setattrs cs (setattr c k)

unfoldable pub update : ApiKey → List Change → Keys → ApiKey × Keys
update k changes s =
    let k' = setattrs changes k in
    (k', log "update_api_key" k'.name (record s { rows = put key_id k' s.rows }))

unfoldable pub delete : ApiKey → Keys → Keys
delete k s = log "delete_api_key" k.name (record s { rows = drop key_id k.id s.rows })

-- Revoking a key that is there marks it, changes nothing else of it, and leaves the other keys as
-- they are; without the key the call raises and writes nothing.
pub get-revoke :
    (aid j : ℕ) (s : Keys)
    → get j (revoke aid s).1 ≡ (
        if aid == j
        then elim (get aid s) [ none ↦ none | some k ↦ some (record k { revoked = true }) ]
        else get j s)
unfolding get revoke
get-revoke aid j s = elim (Option-cases (find key_id aid s.rows)) [
  | inl e ↦ ground (arith, e)
  | inr (k, e) ↦ ground (
    arith,
    e,
    find-key key_id aid s.rows e,
    find-put key_id j (record k { revoked = true }) s.rows,
  )
]
