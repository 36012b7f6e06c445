-- ===== src/Rotation/Regional.antt =====
-- `rotate_region` of lemur/certificates/cli.py, the task `certificate_rotate` of
-- lemur/common/celery.py, and what they change.
use lemur.Prelude.{
  ℕ, String, Bool, true, false, ◌≡◌, refl, sym, ◌∙◌, Option, none, some, List, [], ◌∷◌, ◌==◌,
  nat_eq, string_eq, nat_beq_iff, if◌then◌else◌, arith, Bool-cases, Option-cases, inl, inr, ap,
}
use lemur.Prelude.Result.{Result, ok, err}
use lemur.Prelude.Text.{occurs}
use lemur.Prelude.Table.{find, find-modify}
use lemur.Rotation.{
  Certificate, Endpoint, Db, Site, Names, Stop, endpoint_id, given, validate_certificate,
  validate_endpoint, rotate_certificate, request_rotation, successor, get_all_pending_rotation,
  endpoints_of, attempt, rotate,
}

-- The endpoint is read from its row.
unfoldable pub request_rotation_region :
    Site → (region : String) → (message commit : Bool) → (endpoint certificate : ℕ) → Db → Db
request_rotation_region w region message commit i c db =
    let rotated = request_rotation w message commit i c db in
    elim (find endpoint_id i db.endpoints) [
      | none ↦ db
      | some e ↦ if occurs region e.dnsname then rotated else db
    ]

unfoldable pub rotate_region_to :
    Site → (region : String) → (message commit : Bool) → (certificate : ℕ) → List ℕ → Db → Db
rotate_region_to w region message commit c [] db = db
rotate_region_to w region message commit c (i ∷ ids) db =
    rotate_region_to w region message commit c ids
      (request_rotation_region w region message commit i c db)

unfoldable pub rotate_region_to_successor :
    Site → (region : String) → (message commit : Bool) → (endpoint : ℕ) → Db → Db
rotate_region_to_successor w region message commit i db = elim (find endpoint_id i db.endpoints) [
  | none ↦ db
  | some e ↦
      request_rotation_region w region message commit i (successor db.certificates e.certificate) db
]

unfoldable pub rotate_region_to_successors :
    Site → (region : String) → (message commit : Bool) → List ℕ → Db → Db
rotate_region_to_successors w region message commit [] db = db
rotate_region_to_successors w region message commit (i ∷ ids) db =
    rotate_region_to_successors w region message commit ids
      (rotate_region_to_successor w region message commit i db)

unfoldable pub rotate_region_found :
    Site
    → (region : String) → (message commit : Bool) → Option Certificate
    → Option Certificate
    → Option Endpoint
    → Db
    → Db
rotate_region_found w region message commit old (some new) (some e) db =
    request_rotation_region w region message commit e.id new.id db
rotate_region_found w region message commit (some old) (some new) none db =
    rotate_region_to w region message commit new.id (w.visited (endpoints_of old.id db)) db
rotate_region_found w region message commit _ _ _ db =
    rotate_region_to_successors w region message commit (get_all_pending_rotation db) db

unfoldable pub rotate_region :
    Site → (region : String) → Names → (message commit : Bool) → Db → Result Stop (Unit {0}) × Db
rotate_region w region names message commit db =
    attempt (validate_certificate names.old_certificate db)
      (validate_certificate names.new_certificate db) (validate_endpoint names.endpoint db)
      (λ old new e. rotate_region_found w region message commit old new e db) db

-- No name is given, and changes are kept.
unfoldable pub certificate_rotate :
    Site → (region : Option String) → (notify : Bool) → Db → Result Stop (Unit {0}) × Db
certificate_rotate w region notify db =
    let names : Names = record {
      endpoint = none;
      source = none;
      new_certificate = none;
      old_certificate = none;
    } in
    elim (given region) [
      | none ↦ rotate w names notify true db
      | some r ↦ rotate_region w r names notify true db
    ]

-- An endpoint is where it was, or its name at the DNS has the region in it.
abbrev Confined : String → Db → Db → Type 0
Confined region db db' =
    (j : ℕ) (e : Endpoint)
    → find endpoint_id j db.endpoints ≡ some e
    → occurs region e.dnsname ≡ false
    → find endpoint_id j db'.endpoints ≡ some e

abbrev in_region : String → Option Endpoint → Bool
in_region region none = false
in_region region (some e) = occurs region e.dnsname

request_rotation_elsewhere :
    (w : Site) (message commit : Bool) (i c j : ℕ) (db : Db)
    → (i == j) ≡ false
    → find endpoint_id j (request_rotation w message commit i c db).endpoints
      ≡ find endpoint_id j db.endpoints
unfolding request_rotation rotate_certificate
request_rotation_elsewhere w message commit i c j db h = ground (
  arith,
  find-modify endpoint_id i j (λ e. record e { certificate = c }) db.endpoints (λ r. refl),
)

Confined-request :
    (w : Site) (region : String) (message commit : Bool) (i c : ℕ) (db : Db)
    → Confined region db (request_rotation_region w region message commit i c db)
unfolding request_rotation_region
Confined-request w region message commit i c db j e h o =
    elim (Option-cases (find endpoint_id i db.endpoints)) [
      | inl n ↦ rw (n, request_rotation_region) h
      | inr (e', f) ↦ elim (Bool-cases (occurs region e'.dnsname)) [
        | inr out ↦ rw (f, out, request_rotation_region) h
        | inl inside ↦
            rw (f, inside, request_rotation_region)
              (request_rotation_elsewhere w message commit i c j db (apart e' f inside) ∙ h)
      ]
    ]
  where
    clash : (e' : Endpoint) → occurs region e'.dnsname ≡ true → some e' ≡ some e → ⊥
    clash e' inside p = ground (arith, ap (in_region region) p, inside, o)

    apart :
        (e' : Endpoint)
        → find endpoint_id i db.endpoints ≡ some e'
        → occurs region e'.dnsname ≡ true
        → (i == j) ≡ false
    apart e' f inside = elim (Bool-cases (i == j)) [
      | inr n ↦ n
      | inl y ↦ absurd (
          clash e' inside
            (sym f ∙ (ap (λ n. find endpoint_id n db.endpoints) ((nat_beq_iff i j).0 y) ∙ h)))
    ]

Confined-refl : (region : String) (db : Db) → Confined region db db
Confined-refl region db j e h o = h

Confined-trans :
    (region : String) (a b c : Db) → Confined region a b → Confined region b c → Confined region a c
Confined-trans region a b c h k j e f o = k j e (h j e f o) o

Confined-to :
    (w : Site) (region : String) (message commit : Bool) (c : ℕ) (ids : List ℕ) (db : Db)
    → Confined region db (rotate_region_to w region message commit c ids db)
unfolding rotate_region_to
Confined-to w region message commit c [] db = Confined-refl region db
Confined-to w region message commit c (i ∷ ids) db =
    let db' = request_rotation_region w region message commit i c db in
    Confined-trans region db db' (rotate_region_to w region message commit c ids db')
      (Confined-request w region message commit i c db)
      (Confined-to w region message commit c ids db')

Confined-to_successor :
    (w : Site) (region : String) (message commit : Bool) (i : ℕ) (db : Db)
    → Confined region db (rotate_region_to_successor w region message commit i db)
unfolding rotate_region_to_successor
Confined-to_successor w region message commit i db =
    elim (Option-cases (find endpoint_id i db.endpoints)) [
      | inl n ↦ rw (n, rotate_region_to_successor) (Confined-refl region db)
      | inr (e, f) ↦
          rw (f, rotate_region_to_successor) (Confined-request w region message commit i _ db)
    ]

Confined-to_successors :
    (w : Site) (region : String) (message commit : Bool) (ids : List ℕ) (db : Db)
    → Confined region db (rotate_region_to_successors w region message commit ids db)
unfolding rotate_region_to_successors
Confined-to_successors w region message commit [] db = Confined-refl region db
Confined-to_successors w region message commit (i ∷ ids) db =
    let db' = rotate_region_to_successor w region message commit i db in
    Confined-trans region db db' (rotate_region_to_successors w region message commit ids db')
      (Confined-to_successor w region message commit i db)
      (Confined-to_successors w region message commit ids db')

Confined-found :
    (w : Site) (region : String) (message commit : Bool) (old new : Option Certificate)
    (e : Option Endpoint) (db : Db)
    → Confined region db (rotate_region_found w region message commit old new e db)
unfolding rotate_region_found
Confined-found w region message commit old (some new) (some e) db =
    Confined-request w region message commit e.id new.id db
Confined-found w region message commit (some old) (some new) none db =
    Confined-to w region message commit new.id _ db
Confined-found w region message commit none (some new) none db =
    Confined-to_successors w region message commit _ db
Confined-found w region message commit old none e db =
    Confined-to_successors w region message commit _ db

Confined-attempt :
    (region : String) (old new : Result Stop (Option Certificate))
    (endpoint : Result Stop (Option Endpoint))
    (run : Option Certificate → Option Certificate → Option Endpoint → Db) (db : Db)
    → ((o n : Option Certificate) (e : Option Endpoint) → Confined region db (run o n e))
    → Confined region db (attempt old new endpoint run db).1
Confined-attempt region (err s) new endpoint run db h = Confined-refl region db
Confined-attempt region (ok a) (err s) endpoint run db h = Confined-refl region db
Confined-attempt region (ok a) (ok b) (err s) run db h = Confined-refl region db
Confined-attempt region (ok a) (ok b) (ok c) run db h = h a b c

-- A rotation of a region changes no endpoint whose DNS name does not have the region's name in it,
-- whichever endpoints and certificates are named, and whatever the plugins deploy.
pub rotate_region_confined :
    (w : Site) (region : String) (names : Names) (message commit : Bool) (db : Db) (j : ℕ)
    (e : Endpoint)
    → find endpoint_id j db.endpoints ≡ some e
    → occurs region e.dnsname ≡ false
    → find endpoint_id j (rotate_region w region names message commit db).1.endpoints ≡ some e
unfolding rotate_region
rotate_region_confined w region names message commit db =
    Confined-attempt region (validate_certificate names.old_certificate db)
      (validate_certificate names.new_certificate db) (validate_endpoint names.endpoint db) _ db
      (λ o n e. Confined-found w region message commit o n e db)
