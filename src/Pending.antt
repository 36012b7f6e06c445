-- ===== src/Pending.antt =====
-- lemur/pending_certificates/service.py, and the tasks of lemur/common/celery.py that resolve pending
-- certificates: `fetch_acme_cert`, `fetch_all_pending_acme_certs` and `remove_old_acme_certs`.
-- A task that fails is put back in the queue, which is a list of the model; what else the tasks log
-- and measure is left out. `Env` holds what the tasks ask of other components and of the outside.
pub mod Tasks
pub mod Retries
pub mod Attempts
pub mod Once
pub mod Sweeps
use lemur.Prelude.{
  ℕ, String, ◌+◌, Bool, true, false, Option, none, some, List, [], ◌∷◌, ◌++◌, ◌==◌, nat_eq,
  if◌then◌else◌, select, not,
}
use lemur.Prelude.Result.{Result, ok, err, Exec}
use lemur.Prelude.Table.{find, put, drop}

pub record PendingCertificate : Type 0 where
  pub id : ℕ
  pub name : String
  pub authority_id : ℕ
  pub owner : String
  pub user_id : ℕ
  pub notify : Bool
  pub rename : Bool
  pub number_attempts : ℕ
  pub resolved : Bool
  pub resolved_cert_id : Option ℕ
  pub status : String
  pub last_updated : ℕ
  pub notifications : List ℕ
  pub destinations : List ℕ
  pub sources : List ℕ
  pub roles : List ℕ
  pub replaces : List ℕ
  pub rotation_policy : Option ℕ

-- The dictionary that the authority returns for an order.
pub record Issued : Type 0 where
  pub body : String
  pub chain : String
  pub external_id : String

-- The keyword arguments of `certificate_service.import_certificate`.
pub record ImportData : Type 0 where
  pub issued : Issued
  pub owner : String
  pub creator : ℕ
  pub name : Option String
  pub notifications : List ℕ
  pub destinations : List ℕ
  pub sources : List ℕ
  pub roles : List ℕ
  pub replaces : List ℕ
  pub rotation_policy : Option ℕ

pub record Certificate : Type 0 where
  pub id : ℕ
  pub name : String
  pub imported : ImportData

-- A call of lemur/notifications/messaging.py, none of which raises.
pub data Mail : Type 0 where
  pending_failure : (pending : ℕ) → (notify_owner : Bool) → Mail
  reissue_failed : (pending : ℕ) → Mail
  reissued_with_no_endpoints : (old new : ℕ) → Mail

pub data Exception : Type 0 where
  attribute_error invalid_certificate import_failed plugin_failed : Exception

pub record Db : Type 0 where
  pub pending : List PendingCertificate
  pub certificates : List Certificate
  pub queue : List (ℕ × Option ℕ)
  pub mails : List Mail
  pub audit : List (String × String)

-- `load` is the schema of an uploaded certificate, `import_certificate` the certificate service.
pub record Env : Type 0 where
  pub now : ℕ
  pub plugin_name : (authority : ℕ) → String
  pub user_by_email : String → Option ℕ
  pub load : Issued → Bool
  pub import_certificate :
      ImportData → List Certificate → Result Exception Certificate × List Certificate
  pub cancel_ordered_certificate : PendingCertificate → Bool

abbrev pub pending_id : PendingCertificate → ℕ
pending_id p = p.id

abbrev pub log : String → String → Db → Db
log action entity db = record db { audit = (action, entity) ∷ db.audit }

abbrev pub get : ℕ → Db → Option PendingCertificate
get i db = find pending_id i db.pending

-- The commit of a changed row, which also sets `last_updated`.
abbrev pub save : Env → PendingCertificate → Db → Db
save env p db = record db {
  pending = put pending_id (record p { last_updated = env.now }) db.pending;
}

-- One keyword argument of `update`.
pub data Change : Type 0 where
  set_resolved : Bool → Change
  set_resolved_cert_id : ℕ → Change
  set_status : String → Change
  set_notify : Bool → Change
  set_owner : String → Change

abbrev pub setattr : Change → PendingCertificate → PendingCertificate
setattr (set_resolved v) p = record p { resolved = v }
setattr (set_resolved_cert_id v) p = record p { resolved_cert_id = some v }
setattr (set_status v) p = record p { status = v }
setattr (set_notify v) p = record p { notify = v }
setattr (set_owner v) p = record p { owner = v }

unfoldable pub update : Env → ℕ → Change → Exec Exception Db PendingCertificate
update env i change db = elim (get i db) [
  | none ↦ (err attribute_error, db)
  | some p ↦
      let p' = setattr change p in (ok p', log "update_pending_certificate" p.name (save env p' db))
]

unfoldable pub increment_attempt : Env → PendingCertificate → Db → Db
increment_attempt env p db =
    log "increment_attempt_pending_certificate" p.name
      (save env (record p { number_attempts = p.number_attempts + 1 }) db)

unfoldable pub delete : PendingCertificate → Db → Db
delete p db =
    log "delete_pending_certificate" p.name
      (record db { pending = drop pending_id p.id db.pending })

unfoldable pub cancel : Env → PendingCertificate → Exec Exception Db PendingCertificate
cancel env p db =
    if env.cancel_ordered_certificate p
    then (let p' = record p { status = "Cancelled" } in
        (ok p', log "cancel_pending_certificate" p.name (save env p' db)))
    else (err plugin_failed, db)

-- `get_pending_certs` for a list of numbers: those that are not there are passed over.
unfoldable pub get_pending_certs : List ℕ → Db → List PendingCertificate
get_pending_certs [] db = []
get_pending_certs (i ∷ ids) db = elim (get i db) [
  | none ↦ get_pending_certs ids db
  | some p ↦ p ∷ get_pending_certs ids db
]

unfoldable pub get_unresolved_pending_certs : Db → List PendingCertificate
get_unresolved_pending_certs db = select (λ p. not p.resolved) db.pending

-- The creator is the user with the owner's address, if there is one, else who called.
abbrev pub creator_of : Env → String → ℕ → ℕ
creator_of env owner user = elim (env.user_by_email owner) [ none ↦ user | some u ↦ u ]

abbrev pub import_data : Env → PendingCertificate → Issued → ℕ → ImportData
import_data env p issued user = record {
  issued = issued;
  owner = p.owner;
  creator = creator_of env p.owner user;
  name = if p.rename then none else some p.name;
  notifications = p.notifications;
  destinations = p.destinations;
  sources = p.sources;
  roles = p.roles;
  replaces = p.replaces;
  rotation_policy = p.rotation_policy;
}

unfoldable pub create_certificate :
    Env → PendingCertificate → Issued → ℕ → Exec Exception Db Certificate
create_certificate env p issued user db =
    if env.load issued
    then (let (r, certificates) =
          env.import_certificate (import_data env p issued user) db.certificates in
        let db' = record db { certificates = certificates } in
        elim r [
          | err e ↦ (err e, db')
          | ok c ↦ (ok c, log "certificate_from_pending_certificate" c.name db')
        ])
    else (err invalid_certificate, db)
