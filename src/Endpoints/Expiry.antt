-- ===== src/Endpoints/Expiry.antt =====
-- What `expire_endpoints` of lemur/sources/service.py removes, also right after a synchronisation.
use lemur.Prelude.{
  ℕ, String, ◌≡◌, refl, subst, ap, ◌∙◌, ◌+◌, ◌*◌, ◌<◌, nat_beq_iff, Option, Bool, true, false, not,
  some, List, [], ◌∷◌, ◌++◌, ◌==◌, nat_eq, string_eq, if◌then◌else◌, select, length, all,
  all-select, arith, Bool-cases, inl, inr,
}
use lemur.Prelude.Table.{first}
use lemur.Prelude.Result.{Result, ok, err}
use lemur.Endpoints.Unique.{Unique, Unique-select, get-Unique, sync_endpoints-Unique}
use lemur.Endpoints.{
  Trouble, Endpoint, Described, Db, Env, Counts, at_address, get_by_dnsname_and_port,
  certificate_of, sync_endpoints, is_stale, expire_endpoints,
}
use lemur.Endpoints.Fresh.{is_fresh, fresh_here, sync_firsts, sync_firsts_fresh}

fresh_not_stale :
    (written now ttl : ℕ) (label : String) (e : Endpoint)
    → now < written + ttl * 3600
    → (e.last_updated == written) ≡ true
    → not (is_stale now ttl label e) ≡ true
unfolding is_stale
fresh_not_stale written now ttl label e soon h =
    let same = (nat_beq_iff e.last_updated written).0 h in ground (arith, soon, same)

fresh-select :
    (written now ttl : ℕ) (label : String) (test : Endpoint → Bool) (rows : List Endpoint)
    → now < written + ttl * 3600
    → is_fresh written label (first test rows) ≡ true
    → is_fresh written label (first test (select (λ e. not (is_stale now ttl label e)) rows)) ≡ true
unfolding first select is_fresh
fresh-select written now ttl label test [] soon h = h
fresh-select written now ttl label test (e ∷ rows) soon h = elim (Bool-cases (test e)) [
  | inl t ↦
      let here : is_fresh written label (some e) ≡ true =
        subst (λ b. is_fresh written label (if b then some e else first test rows) ≡ true) t h in
      let young = fresh_not_stale written now ttl label e soon (ground (arith, here)) in
      rw (young, t) here
  | inr f ↦
      let later : is_fresh written label (first test rows) ≡ true =
        subst (λ b. is_fresh written label (if b then some e else first test rows) ≡ true) f h in
      let rest = fresh-select written now ttl label test rows soon later in
      elim (Bool-cases (not (is_stale now ttl label e))) [
        | inl kept ↦ rw (kept, f) rest
        | inr gone ↦ rw gone rest
      ]
]

-- Whether a lookup raised nothing and came to an endpoint of the source that was written then.
abbrev pub is_fresh_row : ℕ → String → Result Trouble (Option Endpoint) → Bool
is_fresh_row written label (err e) = false
is_fresh_row written label (ok o) = is_fresh written label o

-- Where no two endpoints are at one address, a synchronisation raises nothing, and an endpoint for
-- which a certificate is found is there after it and after an expiry that reads the clock before the
-- time to live is over, as the one endpoint at its address, of the source and written by the
-- synchronisation.
pub synced_endpoint_survives :
    (env : Env) (label : String) (earlier later : List Described) (r : Described) (c ttl expiry : ℕ)
    (counts : Counts) (db : Db)
    → Unique db.endpoints
    → expiry < env.now + ttl * 3600
    → (certificate_of env r).0 ≡ some c
    → ((sync_endpoints env label (earlier ++ r ∷ later) (counts, db)).0 ≡ ok tt)
      × (is_fresh_row env.now label (
            get_by_dnsname_and_port r.dnsname r.port
              (expire_endpoints expiry ttl label
                (sync_endpoints env label (earlier ++ r ∷ later) (counts, db)).1.1).1)
          ≡ true)
unfolding expire_endpoints fresh_here
synced_endpoint_survives env label earlier later r c ttl expiry counts db u soon h =
    let (run, kept) = sync_endpoints-Unique env label (earlier ++ r ∷ later) counts db u in
    rw run (
      refl,
      ap (is_fresh_row env.now label) (
            get-Unique r.dnsname r.port
              (expire_endpoints expiry ttl label
                (sync_firsts env label (earlier ++ r ∷ later) (counts, db)).1).1
              (Unique-select _ _ kept))
          ∙ fresh-select env.now expiry ttl label (at_address r.dnsname r.port) _ soon
              (sync_firsts_fresh env label earlier later r c (counts, db) h),
    )

length-split :
    (p : Endpoint → Bool) (rows : List Endpoint)
    → length (select p rows) + length (select (λ e. not (p e)) rows) ≡ length rows
unfolding select
length-split p [] = refl
length-split p (e ∷ rows) = ground (arith, length-split p rows)

-- The number that `expire_endpoints` returns is the number of endpoints that it removes, and those that
-- are left are not stale.
pub expire_endpoints_counts :
    (now ttl : ℕ) (label : String) (db : Db)
    → ((expire_endpoints now ttl label db).0
          + length (expire_endpoints now ttl label db).1.endpoints
        ≡ length db.endpoints)
      × (all (λ e. not (is_stale now ttl label e)) (expire_endpoints now ttl label db).1.endpoints
          ≡ true)
unfolding expire_endpoints
expire_endpoints_counts now ttl label db =
    (length-split (is_stale now ttl label) db.endpoints, all-select _ db.endpoints)
