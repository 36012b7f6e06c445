-- ===== src/Rotation.antt =====
-- Rotation of endpoints and reissue of certificates: lemur/certificates/cli.py with what it calls of
-- lemur/deployment/service.py, lemur/endpoints/service.py and lemur/certificates/service.py, and the
-- tasks of lemur/common/celery.py that run it. What is printed, logged and measured is left out.
pub mod Regional
pub mod Reissue
pub mod Advance
pub mod Settles
pub mod Renewal
pub mod Rehearsal
use lemur.Prelude.{
  ℕ, String, ◌+◌, ◌-◌, ◌*◌, ◌/◌, Bool, true, false, not, ◌&&◌, ◌||◌, Option, none, some, List, [],
  ◌∷◌, ◌++◌, ◌==◌, nat_eq, string_eq, if◌then◌else◌, select, contains, map, leb,
}
use lemur.Prelude.Result.{Result, ok, err}
use lemur.Prelude.Text.{occurs}
use lemur.Prelude.Table.{find, first, modify}

-- `replaced` has the numbers of the certificates that replace this one.
pub record Certificate : Type 0 where
  pub id : ℕ
  pub name : String
  pub rotation : Bool
  pub notify : Bool
  pub not_after : ℕ
  pub policy_days : ℕ
  pub replaced : List ℕ
  pub destinations : List String

pub record Endpoint : Type 0 where
  pub id : ℕ
  pub name : String
  pub dnsname : String
  pub source : String
  pub certificate : ℕ

-- The mails: of a rotation, of a reissue of a certificate without endpoints, of a reissue that failed.
pub data Mail : Type 0 where
  rotation reissued_with_no_endpoints reissue_failed : ℕ → Mail

pub record Db : Type 0 where
  pub certificates : List Certificate
  pub endpoints : List Endpoint
  pub next : ℕ
  pub mails : List Mail

-- What a reissue through the issuer comes to.
pub data Issued : Type 0 where
  raised pending : Issued
  minted : Certificate → Issued

-- `update_endpoint` is whether the source's plugin deploys the certificate of a number on the endpoint
-- of a number; it may raise. `policies` are the days of all policies of rotation. `visited` are the endpoints that an iteration over the relation
-- `old_cert.endpoints` comes to, while the endpoints leave the relation.
pub record Site : Type 0 where
  pub now : ℕ
  pub policies : List ℕ
  pub update_endpoint : ℕ → ℕ → Bool
  pub visited : List ℕ → List ℕ
  pub serialises : ℕ → Bool
  pub issue : ℕ → Issued
  pub excluded_destinations : List String

-- An option of the command line, none where it is not given.
pub record Names : Type 0 where
  pub endpoint : Option String
  pub source : Option String
  pub new_certificate : Option String
  pub old_certificate : Option String

-- How a run stops early: by `sys.exit(1)`, or by an exception, which is caught.
pub data Stop : Type 0 where
  exited multiple_results : Stop

abbrev pub certificate_id : Certificate → ℕ
certificate_id c = c.id

abbrev pub endpoint_id : Endpoint → ℕ
endpoint_id e = e.id

-- The truth of a text that may be missing.
abbrev pub given : Option String → Option String
given none = none
given (some s) = if s == "" then none else some s

unfoldable pub validate_certificate : Option String → Db → Result Stop (Option Certificate)
validate_certificate name db = elim (given name) [
  | none ↦ ok none
  | some n ↦ elim (first (λ (c : Certificate). c.name == n) db.certificates) [
    | none ↦ err exited
    | some c ↦ ok (some c)
  ]
]

-- `scalar()` of a query that may find several rows.
abbrev pub scalar : List Endpoint → Result Stop (Option Endpoint)
scalar [] = err exited
scalar (e ∷ []) = ok (some e)
scalar (e ∷ f ∷ more) = err multiple_results

unfoldable pub validate_endpoint : Option String → Db → Result Stop (Option Endpoint)
validate_endpoint name db = elim (given name) [
  | none ↦ ok none
  | some n ↦ scalar (select (λ (e : Endpoint). e.name == n) db.endpoints)
]

unfoldable pub validate_endpoint_from_source :
    Option String → String → Db → Result Stop (Option Endpoint)
validate_endpoint_from_source name source db = elim (given name) [
  | none ↦ ok none
  | some n ↦ scalar (select (λ (e : Endpoint). e.name == n && e.source == source) db.endpoints)
]

-- Whether it was deployed; the endpoint is unchanged where the plugin raises.
unfoldable pub rotate_certificate : Site → (endpoint certificate : ℕ) → Db → Bool × Db
rotate_certificate w i c db = (
  w.update_endpoint i c,
  record db {
    endpoints =
        if w.update_endpoint i c
        then modify endpoint_id i (λ e. record e { certificate = c }) db.endpoints
        else db.endpoints;
  },
)

-- The exception of a failed rotation is caught here.
unfoldable pub request_rotation :
    Site → (message commit : Bool) → (endpoint certificate : ℕ) → Db → Db
request_rotation w message commit i c db =
    let (deployed, db') = rotate_certificate w i c db in
    if commit
    then record db' {
      mails = if deployed && message then db.mails ++ rotation c ∷ [] else db.mails;
    }
    else db

abbrev pub is_replaced : Certificate → Bool
is_replaced c = elim c.replaced [ [] ↦ false | _ ∷ _ ↦ true ]

-- `certificate.replaced[0]`, the certificate itself where there is none.
unfoldable pub successor : List Certificate → ℕ → ℕ
successor rows i = elim (find certificate_id i rows) [
  | none ↦ i
  | some c ↦ elim c.replaced [ [] ↦ i | r ∷ _ ↦ r ]
]

unfoldable pub awaits_rotation : List Certificate → Endpoint → Bool
awaits_rotation rows e = elim (find certificate_id e.certificate rows) [
  | none ↦ false
  | some c ↦ is_replaced c
]

unfoldable pub get_all_pending_rotation : Db → List ℕ
get_all_pending_rotation db =
    map endpoint_id (select (awaits_rotation db.certificates) db.endpoints)

-- The round of the loop for an endpoint; its certificate is read when its turn comes.
unfoldable pub rotate_to_successor : Site → (message commit : Bool) → (endpoint : ℕ) → Db → Db
rotate_to_successor w message commit i db = elim (find endpoint_id i db.endpoints) [
  | none ↦ db
  | some e ↦ request_rotation w message commit i (successor db.certificates e.certificate) db
]

unfoldable pub rotate_to_successors : Site → (message commit : Bool) → List ℕ → Db → Db
rotate_to_successors w message commit [] db = db
rotate_to_successors w message commit (i ∷ ids) db =
    rotate_to_successors w message commit ids (rotate_to_successor w message commit i db)

unfoldable pub rotate_to : Site → (message commit : Bool) → (certificate : ℕ) → List ℕ → Db → Db
rotate_to w message commit c [] db = db
rotate_to w message commit c (i ∷ ids) db =
    rotate_to w message commit c ids (request_rotation w message commit i c db)

abbrev pub endpoints_of : ℕ → Db → List ℕ
endpoints_of c db = map endpoint_id (select (λ (e : Endpoint). e.certificate == c) db.endpoints)

-- The three ways of `rotate`, once the names are looked up.
unfoldable pub rotate_found :
    Site
    → (message commit : Bool) → Option Certificate
    → Option Certificate
    → Option Endpoint
    → Db
    → Db
rotate_found w message commit old (some new) (some e) db =
    request_rotation w message commit e.id new.id db
rotate_found w message commit (some old) (some new) none db =
    rotate_to w message commit new.id (w.visited (endpoints_of old.id db)) db
rotate_found w message commit _ _ _ db =
    rotate_to_successors w message commit (get_all_pending_rotation db) db

abbrev pub attempt :
    Result Stop (Option Certificate)
    → Result Stop (Option Certificate)
    → Result Stop (Option Endpoint)
    → (Option Certificate → Option Certificate → Option Endpoint → Db)
    → Db
    → Result Stop (Unit {0}) × Db
attempt (err s) _ _ run db = (err s, db)
attempt _ (err s) _ run db = (err s, db)
attempt _ _ (err s) run db = (err s, db)
attempt (ok old) (ok new) (ok e) run db = (ok tt, run old new e)

unfoldable pub rotate : Site → Names → (message commit : Bool) → Db → Result Stop (Unit {0}) × Db
rotate w names message commit db =
    attempt (validate_certificate names.old_certificate db)
      (validate_certificate names.new_certificate db)
      (elim (given names.source) [
        | none ↦ validate_endpoint names.endpoint db
        | some s ↦ validate_endpoint_from_source names.endpoint s db
      ])
      (λ old new e. rotate_found w message commit old new e db) db
