-- ===== src/Endpoints/Fresh.antt =====
-- What a synchronisation leaves at the address of a reported endpoint, lemur/sources/service.py.
use lemur.Prelude.{
  ℕ, String, ◌≡◌, refl, sym, ap, subst, ◌∙◌, ◌+◌, Bool, true, false, ◌&&◌, Option, none, some, List,
  [], ◌∷◌, ◌++◌, ◌==◌, nat_eq, string_eq, if◌then◌else◌, arith, beq_refl,
}
use lemur.Prelude.Table.{first, first-append, modify}
use lemur.Endpoints.{
  Endpoint, Described, Db, Env, Counts, endpoint_id, at_address, sync_existing,
  get_or_create_cipher, get_or_create_ciphers, get_or_create_policy, create, created, updated,
  certificate_of, write_endpoint, sync_with,
}

get_or_create_cipher-endpoints :
    (name : String) (db : Db) → (get_or_create_cipher name db).1.endpoints ≡ db.endpoints
unfolding get_or_create_cipher
get_or_create_cipher-endpoints name db = ground arith

get_or_create_ciphers-endpoints :
    (names : List String) (db : Db) → (get_or_create_ciphers names db).1.endpoints ≡ db.endpoints
unfolding get_or_create_ciphers
get_or_create_ciphers-endpoints [] db = refl
get_or_create_ciphers-endpoints (name ∷ names) db =
    get_or_create_ciphers-endpoints names (get_or_create_cipher name db).1
    ∙ get_or_create_cipher-endpoints name db

get_or_create_policy-endpoints :
    (name : String) (ciphers : List ℕ) (db : Db)
    → (get_or_create_policy name ciphers db).1.endpoints ≡ db.endpoints
unfolding get_or_create_policy
get_or_create_policy-endpoints name ciphers db = ground arith

abbrev map_endpoint : ℕ → (Endpoint → Endpoint) → Option Endpoint → Option Endpoint
map_endpoint i f none = none
map_endpoint i f (some e) = some (if e.id == i then f e else e)

first-modify :
    (d : String) (p i : ℕ) (env : Env) (label : String) (r : Described) (c q : ℕ)
    (rows : List Endpoint)
    → first (at_address d p) (modify endpoint_id i (updated env label r c q) rows)
      ≡ map_endpoint i (updated env label r c q) (first (at_address d p) rows)
unfolding first modify updated
first-modify d p i env label r c q [] = refl
first-modify d p i env label r c q (e ∷ rows) =
    ground (arith, first-modify d p i env label r c q rows)

-- Whether an endpoint that was looked up is there, is the source's, and was written at that moment.
unfoldable pub is_fresh : (now : ℕ) → String → Option Endpoint → Bool
is_fresh now label none = false
is_fresh now label (some e) = e.source == label && e.last_updated == now

unfoldable pub fresh_here : Env → String → String → ℕ → List Endpoint → Bool
fresh_here env label d p rows = is_fresh env.now label (first (at_address d p) rows)

fresh_map :
    (env : Env) (label : String) (r : Described) (c q i : ℕ) (o : Option Endpoint)
    → is_fresh env.now label o ≡ true
    → is_fresh env.now label (map_endpoint i (updated env label r c q) o) ≡ true
unfolding is_fresh updated
fresh_map env label r c q i none h = h
fresh_map env label r c q i (some e) h = ground (arith, h, beq_refl label, beq_refl env.now)

fresh_updated :
    (env : Env) (label : String) (r : Described) (c q : ℕ) (e : Endpoint)
    → is_fresh env.now label (map_endpoint e.id (updated env label r c q) (some e)) ≡ true
unfolding is_fresh updated
fresh_updated env label r c q e = ground (arith, beq_refl e.id, beq_refl label, beq_refl env.now)

fresh_append :
    (now : ℕ) (label : String) (o o' : Option Endpoint)
    → is_fresh now label o ≡ true
    → is_fresh now label (elim o [ some e ↦ some e | none ↦ o' ]) ≡ true
unfolding is_fresh
fresh_append now label none o' h = cc
fresh_append now label (some e) o' h = h

-- Writing an endpoint keeps what is fresh.
fresh-write_endpoint :
    (env : Env) (label : String) (r : Described) (c q : ℕ) (o : Option Endpoint) (counts : Counts)
    (db : Db) (d : String) (p : ℕ)
    → fresh_here env label d p db.endpoints ≡ true
    → fresh_here env label d p (write_endpoint env label r c q o (counts, db)).1.endpoints ≡ true
unfolding write_endpoint fresh_here create
fresh-write_endpoint env label r c q none counts db d p h =
    subst (λ o. is_fresh env.now label o ≡ true)
      (sym (first-append (at_address d p) db.endpoints _)) (fresh_append env.now label _ _ h)
fresh-write_endpoint env label r c q (some e) counts db d p h =
    subst (λ o. is_fresh env.now label o ≡ true)
      (sym (first-modify d p e.id env label r c q db.endpoints))
      (fresh_map env label r c q e.id _ h)

fresh_created :
    (env : Env) (label : String) (r : Described) (c q number : ℕ)
    → is_fresh env.now label
        (first (at_address r.dnsname r.port) (created env label r c q number ∷ []))
      ≡ true
unfolding is_fresh first
fresh_created env label r c q number =
    ground (arith, beq_refl r.dnsname, beq_refl r.port, beq_refl label, beq_refl env.now)

-- The endpoint that is written is fresh.
write_endpoint_fresh :
    (env : Env) (label : String) (r : Described) (c q : ℕ) (o : Option Endpoint) (counts : Counts)
    (db : Db)
    → first (at_address r.dnsname r.port) db.endpoints ≡ o
    → fresh_here env label r.dnsname r.port
        (write_endpoint env label r c q o (counts, db)).1.endpoints
      ≡ true
unfolding write_endpoint fresh_here create
write_endpoint_fresh env label r c q none counts db h =
    let e = created env label r c q db.next in
    subst (λ o. is_fresh env.now label o ≡ true)
      (sym (first-append (at_address r.dnsname r.port) db.endpoints (e ∷ [])))
      (subst
        (λ o.
          is_fresh env.now label
            (elim o [ some x ↦ some x | none ↦ first (at_address r.dnsname r.port) (e ∷ []) ])
          ≡ true)
        (sym h) (fresh_created env label r c q db.next))
write_endpoint_fresh env label r c q (some e) counts db h =
    subst (λ o. is_fresh env.now label o ≡ true)
      (sym (first-modify r.dnsname r.port e.id env label r c q db.endpoints))
      (subst (λ o. is_fresh env.now label (map_endpoint e.id (updated env label r c q) o) ≡ true)
        (sym h) (fresh_updated env label r c q e))

-- Ciphers and policies leave the endpoints as they are.
pub policy-endpoints :
    (r : Described) (db : Db)
    → (get_or_create_policy r.policy_name
        (get_or_create_ciphers r.ciphers db).0
        (get_or_create_ciphers r.ciphers db).1).1.endpoints
      ≡ db.endpoints
policy-endpoints r db =
    get_or_create_policy-endpoints r.policy_name _ (get_or_create_ciphers r.ciphers db).1
    ∙ get_or_create_ciphers-endpoints r.ciphers db

fresh-sync_with :
    (env : Env) (label : String) (r : Described) (x : Option Endpoint) (o : Option ℕ)
    (counts : Counts) (db : Db) (d : String) (p : ℕ)
    → fresh_here env label d p db.endpoints ≡ true
    → fresh_here env label d p (sync_with env label r x o (counts, db)).1.endpoints ≡ true
unfolding sync_with
fresh-sync_with env label r x none counts db d p h = h
fresh-sync_with env label r x (some c) counts db d p h =
    fresh-write_endpoint env label r c _ x counts _ d p
      (subst (λ rows. fresh_here env label d p rows ≡ true) (sym (policy-endpoints r db)) h)

sync_with_fresh :
    (env : Env) (label : String) (r : Described) (c : ℕ) (counts : Counts) (db : Db)
    → fresh_here env label r.dnsname r.port
        (sync_with env label r
          (first (at_address r.dnsname r.port) db.endpoints)
          (some c)
          (counts, db)).1.endpoints
      ≡ true
unfolding sync_with
sync_with_fresh env label r c counts db =
    write_endpoint_fresh env label r c _ _ counts _
      (ap (λ rows. first (at_address r.dnsname r.port) rows) (policy-endpoints r db))

-- The loop where a lookup takes the first row: what it does where no address has two rows.
unfoldable pub sync_first : Env → String → Described → Counts × Db → Counts × Db
sync_first env label r s =
    sync_existing env label r (first (at_address r.dnsname r.port) s.1.endpoints) s

unfoldable pub sync_firsts : Env → String → List Described → Counts × Db → Counts × Db
sync_firsts env label [] s = s
sync_firsts env label (r ∷ endpoints) s = sync_firsts env label endpoints (sync_first env label r s)

fresh-sync_firsts :
    (env : Env) (label : String) (rs : List Described) (s : Counts × Db) (d : String) (p : ℕ)
    → fresh_here env label d p s.1.endpoints ≡ true
    → fresh_here env label d p (sync_firsts env label rs s).1.endpoints ≡ true
unfolding sync_firsts sync_first sync_existing
fresh-sync_firsts env label [] s d p h = h
fresh-sync_firsts env label (r ∷ rs) (counts, db) d p h =
    fresh-sync_firsts env label rs _ d p
      (fresh-sync_with env label r _ (certificate_of env r).0 _ db d p h)

here :
    (env : Env) (label : String) (r : Described) (c : ℕ) (counts : Counts) (db : Db)
    → (certificate_of env r).0 ≡ some c
    → fresh_here env label r.dnsname r.port (sync_first env label r (counts, db)).1.endpoints ≡ true
unfolding sync_first sync_existing
here env label r c counts db h =
    subst
      (λ o.
        fresh_here env label r.dnsname r.port
          (sync_with env label r (first (at_address r.dnsname r.port) db.endpoints) o (
            record counts { updated_by_hash = counts.updated_by_hash + (certificate_of env r).1 },
            db,
          )).1.endpoints
        ≡ true)
      (sym h) (sync_with_fresh env label r c _ db)

pub sync_firsts_fresh :
    (env : Env) (label : String) (earlier later : List Described) (r : Described) (c : ℕ)
    (s : Counts × Db)
    → (certificate_of env r).0 ≡ some c
    → fresh_here env label r.dnsname r.port
        (sync_firsts env label (earlier ++ r ∷ later) s).1.endpoints
      ≡ true
unfolding sync_firsts
sync_firsts_fresh env label [] later r c (counts, db) h =
    fresh-sync_firsts env label later (sync_first env label r (counts, db)) r.dnsname r.port
      (here env label r c counts db h)
sync_firsts_fresh env label (e ∷ earlier) later r c s h =
    sync_firsts_fresh env label earlier later r c (sync_first env label e s) h
