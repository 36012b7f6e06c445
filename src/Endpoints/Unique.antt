-- ===== src/Endpoints/Unique.antt =====
-- Addresses of endpoints that stay unique, lemur/sources/service.py and lemur/endpoints/service.py.
use lemur.Prelude.{
  ℕ, String, ◌≡◌, refl, sym, ap, ◌+◌, subst, ◌∙◌, Bool, true, false, ◌&&◌, Option, none, some, List,
  [], ◌∷◌, ◌++◌, ◌==◌, nat_eq, string_eq, if◌then◌else◌, select, arith, Bool-cases, inl, inr,
  eq_iff, nat_beq_iff, append-nil,
}
use lemur.Prelude.Result.{ok}
use lemur.Prelude.Table.{first, modify}
use lemur.Endpoints.{
  Endpoint, Described, Db, Env, Counts, endpoint_id, at_address, scalar, get_by_dnsname_and_port,
  create, created, updated, certificate_of, write_endpoint, sync_with, sync_existing, sync_endpoint,
  sync_endpoints,
}
use lemur.Endpoints.Fresh.{sync_first, sync_firsts, policy-endpoints}

-- Whether a list has one element at most.
unfoldable pub single : List Endpoint → Bool
single [] = true
single (e ∷ []) = true
single (e ∷ f ∷ more) = false

-- No two endpoints are at one address.
abbrev pub Unique : List Endpoint → Type 0
Unique rows = (d : String) (p : ℕ) → single (select (at_address d p) rows) ≡ true

scalar-select :
    (t : Endpoint → Bool) (rows : List Endpoint)
    → single (select t rows) ≡ true
    → scalar (select t rows) ≡ ok (first t rows)
unfolding single select first
scalar-select t [] h = refl
scalar-select t (e ∷ rows) h = elim (Bool-cases (t e)) [
  | inl k ↦ rw k (
      alone (select t rows)
        (subst (λ b. single (if b then e ∷ select t rows else select t rows) ≡ true) k h))
  | inr k ↦ rw k (
      scalar-select t rows
        (subst (λ b. single (if b then e ∷ select t rows else select t rows) ≡ true) k h))
]
  where
    alone : (xs : List Endpoint) → single (e ∷ xs) ≡ true → scalar (e ∷ xs) ≡ ok (some e)
    alone [] s = refl
    alone (x ∷ xs) s = cc

-- The lookup of a table without two endpoints at one address does not raise.
pub get-Unique :
    (d : String) (p : ℕ) (db : Db)
    → Unique db.endpoints
    → get_by_dnsname_and_port d p db ≡ ok (first (at_address d p) db.endpoints)
unfolding get_by_dnsname_and_port
get-Unique d p db u = scalar-select (at_address d p) db.endpoints (u d p)

nothing_selected :
    (t : Endpoint → Bool) (rows : List Endpoint) → first t rows ≡ none → select t rows ≡ []
unfolding select first
nothing_selected t [] h = refl
nothing_selected t (e ∷ rows) h = ground (arith, h, nothing_selected t rows)

select-append :
    (t : Endpoint → Bool) (xs ys : List Endpoint) → select t (xs ++ ys) ≡ select t xs ++ select t ys
unfolding select
select-append t [] ys = refl
select-append t (x ∷ xs) ys = ground (arith, select-append t xs ys)

Unique-append :
    (env : Env) (label : String) (r : Described) (c q n : ℕ) (rows : List Endpoint)
    → first (at_address r.dnsname r.port) rows ≡ none
    → Unique rows
    → Unique (rows ++ created env label r c q n ∷ [])
unfolding single select
Unique-append env label r c q n rows h u d p =
    rw (select-append (at_address d p) rows (created env label r c q n ∷ []))
      (elim (Bool-cases (at_address d p (created env label r c q n))) [
        | inr k ↦ rw (k, append-nil (select (at_address d p) rows)) (u d p)
        | inl k ↦ rw (k, gone k) refl
      ])
  where
    gone : (r.dnsname == d && r.port == p) ≡ true → select (at_address d p) rows ≡ []
    gone k = nothing_selected (at_address d p) rows (
        subst (λ x. first (at_address x p) rows ≡ none) ((eq_iff r.dnsname d).0 (ground (arith, k)))
          (subst (λ x. first (at_address r.dnsname x) rows ≡ none)
            ((nat_beq_iff r.port p).0 (ground (arith, k))) h))

single-modify :
    (i : ℕ) (f : Endpoint → Endpoint) (xs : List Endpoint)
    → single (modify endpoint_id i f xs) ≡ single xs
unfolding single modify
single-modify i f [] = refl
single-modify i f (x ∷ []) = refl
single-modify i f (x ∷ y ∷ more) = refl

select-modify :
    (i : ℕ) (env : Env) (label : String) (r : Described) (c q : ℕ) (d : String) (p : ℕ)
    (rows : List Endpoint)
    → select (at_address d p) (modify endpoint_id i (updated env label r c q) rows)
      ≡ modify endpoint_id i (updated env label r c q) (select (at_address d p) rows)
unfolding select modify updated
select-modify i env label r c q d p [] = refl
select-modify i env label r c q d p (e ∷ rows) =
    ground (arith, select-modify i env label r c q d p rows)

Unique-write_endpoint :
    (env : Env) (label : String) (r : Described) (c q : ℕ) (o : Option Endpoint) (counts : Counts)
    (db : Db)
    → first (at_address r.dnsname r.port) db.endpoints ≡ o
    → Unique db.endpoints
    → Unique (write_endpoint env label r c q o (counts, db)).1.endpoints
unfolding write_endpoint create
Unique-write_endpoint env label r c q none counts db h u d p =
    Unique-append env label r c q db.next db.endpoints h u d p
Unique-write_endpoint env label r c q (some e) counts db h u d p =
    ap single (select-modify e.id env label r c q d p db.endpoints)
    ∙ (single-modify e.id (updated env label r c q) (select (at_address d p) db.endpoints) ∙ u d p)

Unique-sync_first :
    (env : Env) (label : String) (r : Described) (counts : Counts) (db : Db)
    → Unique db.endpoints
    → Unique (sync_first env label r (counts, db)).1.endpoints
unfolding sync_first sync_existing sync_with
Unique-sync_first env label r counts db u = written (certificate_of env r).0
  where
    written :
        (o : Option ℕ)
        → Unique
            (sync_with env label r (first (at_address r.dnsname r.port) db.endpoints) o (
              record counts { updated_by_hash = counts.updated_by_hash + (certificate_of env r).1 },
              db,
            )).1.endpoints
    written none = u
    written (some c) =
        Unique-write_endpoint env label r c _ _ _ _
          (ap (λ rows. first (at_address r.dnsname r.port) rows) (policy-endpoints r db))
          (subst Unique (sym (policy-endpoints r db)) u)

-- Where no two endpoints are at one address, a synchronisation raises nothing, and leaves it so.
pub sync_endpoints-Unique :
    (env : Env) (label : String) (rs : List Described) (counts : Counts) (db : Db)
    → Unique db.endpoints
    → (sync_endpoints env label rs (counts, db) ≡ (ok tt, sync_firsts env label rs (counts, db)))
      × Unique (sync_firsts env label rs (counts, db)).1.endpoints
unfolding sync_endpoints sync_endpoint sync_firsts sync_existing sync_first
sync_endpoints-Unique env label [] counts db u = (refl, u)
sync_endpoints-Unique env label (r ∷ rs) counts db u =
    let next = sync_first env label r (counts, db) in
    let (rest, kept) =
      sync_endpoints-Unique env label rs next.0 next.1
        (Unique-sync_first env label r counts db u) in
    (rw (get-Unique r.dnsname r.port db u) rest, kept)

single-select :
    (q : Endpoint → Bool) (xs : List Endpoint) → single xs ≡ true → single (select q xs) ≡ true
unfolding single select
single-select q [] h = refl
single-select q (x ∷ []) h = ground arith
single-select q (x ∷ y ∷ more) h = cc

select_swap :
    (t q : Endpoint → Bool) (rows : List Endpoint)
    → select t (select q rows) ≡ select q (select t rows)
unfolding select
select_swap t q [] = refl
select_swap t q (e ∷ rows) = ground (arith, select_swap t q rows)

pub Unique-select :
    (q : Endpoint → Bool) (rows : List Endpoint) → Unique rows → Unique (select q rows)
Unique-select q rows u d p =
    ap single (select_swap (at_address d p) q rows)
    ∙ single-select q (select (at_address d p) rows) (u d p)
