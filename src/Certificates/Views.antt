-- ===== src/Certificates/Views.antt =====
-- lemur/certificates/views.py: the handlers that read or change one certificate. A response is its
-- status and its message, which is empty where the handler returns data; an exception that nothing
-- catches is the status 500.
use lemur.Prelude.{
  ℕ, String, Bool, true, false, not, ◌&&◌, ◌||◌, Option, none, some, List, [], ◌∷◌, ◌++◌, ◌==◌,
  nat_eq, string_eq, if◌then◌else◌, select, contains, any,
}
use lemur.Prelude.Result.{Result, ok, err}
use lemur.Prelude.Text.{concat, is_empty}
use lemur.Auth.Permissions.{Value, row, nothing, Account, Principal, can, certificate_permission}
use lemur.Certificates.{
  Destination, Certificate, Failure, not_implemented, failed, Plugins, Db, get, save,
  validate_no_duplicate_destinations, without_owner, without_defaults, update_switches,
  update_owner, Cleanup, remove_from_destination, removal_error, revoke, deactivate,
  is_attached_to_endpoint, has_label, set_destinations, update_replacement,
}

pub record Response : Type 0 where
  pub code : ℕ
  pub message : String

-- `roles` finds the number of the role of a name, `valid_owner` is `is_valid_owner`, and
-- `allow_deletion` the setting ALLOW_CERT_DELETION.
pub record Site : Type 0 where
  pub principal : Principal
  pub plugins : Plugins
  pub roles : String → Option ℕ
  pub valid_owner : String → Bool
  pub allow_deletion : Bool
  pub now : ℕ

-- What `certificate_edit_input_schema` makes of a request.
pub record Edit : Type 0 where
  pub owner : String
  pub notify : Option Bool
  pub rotation : Option Bool
  pub roles : List String
  pub notifications : List String
  pub destinations : List Destination
  pub replaces : List ℕ

-- `role_service.get_by_name(cert.owner)`
unfoldable pub owner_role : Site → String → Value
owner_role w owner = elim (w.roles owner) [ none ↦ nothing | some i ↦ row i ]

-- The creator is not asked for a permission.
unfoldable pub may_act : Site → Account → Certificate → Bool
may_act w user c =
    user.id == c.user
    || can w.principal (certificate_permission (owner_role w c.owner) c.roles) user

abbrev pub log : String → Certificate → Db → Db
log action c db = record db { logs = db.logs ++ (action, c.id) ∷ [] }

abbrev pub done : Response
done = record { code = 200; message = "" }

abbrev pub refusal : ℕ → String → Response
refusal code message = record { code = code; message = message }

unfoldable pub lacks_key : Plugins → Certificate → List Destination → Bool
lacks_key p c destinations =
    not c.has_private_key && any (λ d. p.requires_key d.plugin_name) destinations

unfoldable pub cleanup_owner_roles_notification : String → Edit → Edit
cleanup_owner_roles_notification owner data' = record data' {
  roles = without_owner owner data'.roles;
  notifications = without_defaults owner data'.notifications;
}

-- A destination that is no longer wanted and cannot be cleaned is wanted again.
unfoldable pub drop_destination : Plugins → ℕ → Destination → Cleanup → Cleanup
drop_destination p i d s =
    let (e, cleaned) = remove_from_destination p i d s.cleaned in
    let dropped = not (has_label d.label s.destinations) in
    record {
      destinations =
          if dropped
          then (elim e [ none ↦ s.destinations | some _ ↦ s.destinations ++ d ∷ [] ])
          else s.destinations;
      message =
          if dropped
          then (elim e [ none ↦ s.message | some text ↦ concat s.message (removal_error d text) ])
          else s.message;
      cleaned = if dropped then cleaned else s.cleaned;
    }

unfoldable pub drop_destinations : Plugins → ℕ → List Destination → Cleanup → Cleanup
drop_destinations p i [] s = s
drop_destinations p i (d ∷ destinations) s =
    drop_destinations p i destinations (drop_destination p i d s)

-- `service.update(certificate_id, **data)`: the exception of a listener, and what it leaves.
unfoldable pub update : Site → Certificate → Edit → Db → Option String × Db
update w c data' db =
    let (e, uploaded) = set_destinations w.plugins w.now c data'.destinations db.uploaded in
    let c' : Certificate = record c {
      owner = data'.owner;
      notify = elim data'.notify [ none ↦ c.notify | some b ↦ b ];
      rotation = elim data'.rotation [ none ↦ c.rotation | some b ↦ b ];
      roles = data'.roles;
      notifications = data'.notifications;
      destinations = data'.destinations;
      replaces = data'.replaces;
    } in
    let replaced = select (λ i. not (contains i c.replaces)) data'.replaces in
    let saved = save c' db in
    elim e [
      | some text ↦ (some text, record db { uploaded = uploaded })
      | none ↦ (
        none,
        record saved {
          certificates = update_replacement replaced saved.certificates;
          uploaded = uploaded;
        },
      )
    ]

abbrev pub start_edit : Edit → Db → Cleanup
start_edit data' db = record {
  destinations = data'.destinations;
  message = "";
  cleaned = db.cleaned;
}

-- The end of `put`, after the update.
abbrev pub edited : String → Certificate → Option String × Db → Response × Db
edited message c (some text, db) = (refusal 500 text, db)
edited message c (none, db) = (
  if is_empty message then done else refusal 400 (concat "Edit Successful except -\n\n " message),
  log "update_cert" c db,
)

-- `put` from the removal of destinations on.
unfoldable pub put_valid : Site → Certificate → Edit → Db → Response × Db
put_valid w c data' db =
    let s : Cleanup = drop_destinations w.plugins c.id c.destinations (start_edit data' db) in
    edited s.message c (
      update w c (record data' { destinations = s.destinations })
        (record db { cleaned = s.cleaned }))

unfoldable pub put_allowed : Site → Certificate → Edit → Db → Response × Db
put_allowed w c data' db =
    let unchanged = put_valid w c data' db in
    let changed = put_valid w c (cleanup_owner_roles_notification c.owner data') db in
    if not (validate_no_duplicate_destinations w.plugins data'.destinations)
    then (refusal 400 "Duplicate destinations are not allowed", db)
    else if lacks_key w.plugins c data'.destinations
    then (refusal 400 "Unable to add destination", db)
    else if c.owner == data'.owner
    then unchanged
    else if w.valid_owner data'.owner
    then changed
    else (refusal 412 "Invalid owner", db)

abbrev pub revoke_answer : Certificate → Result Failure String × Db → Response × Db
revoke_answer c (err not_implemented, db) =
    (refusal 400 "Revoke is not implemented for issuer of this certificate", db)
revoke_answer c (err (failed text), db) = (refusal 400 (concat "Failed to revoke: " text), db)
revoke_answer c (ok message, db) = (
  if is_empty message then done else refusal 400 (concat "Certificate is revoked - " message),
  log "revoke_cert" c db,
)

-- `put` of `CertificateRevoke` once the certificate is found and the user may act.
unfoldable pub revoke_allowed : Site → Certificate → Db → Response × Db
revoke_allowed w c db =
    let revoked' = revoke_answer c (revoke w.plugins c db) in
    if any (is_attached_to_endpoint w.plugins c.name) c.endpoints
    then (
      refusal 403 "Cannot revoke certificate. Endpoints are deployed with the given certificate.",
      db,
    )
    else revoked'

abbrev pub deactivate_answer : Certificate → Result Failure (Unit {0}) × Db → Response × Db
deactivate_answer c (err not_implemented, db) =
    (refusal 400 "Deactivate is not implemented for issuer of this certificate", db)
deactivate_answer c (err (failed text), db) =
    (refusal 400 (concat "Failed to Deactivate: " text), db)
deactivate_answer c (ok _, db) = (done, log "deactivate_cert" c db)

-- `put` of `CertificateDeactivate`, likewise.
unfoldable pub deactivate_allowed : Site → Certificate → Db → Response × Db
deactivate_allowed w c db = deactivate_answer c (deactivate w.plugins c db)

-- The requests for one certificate, the plugin of an export by whether it requires a key.
pub data Request : Type 0 where
  put update_owners : Edit → Request
  switches : (notify rotation : Option Bool) → Request
  delete revokes deactivates view_key : Request
  export : Bool → Request

unfoldable pub post_switches : (notify rotation : Option Bool) → Certificate → Db → Response × Db
post_switches notify rotation c db =
    let (c', db') = update_switches notify rotation c db in (done, log "update_cert" c' db')

unfoldable pub post_owner : Edit → Certificate → Db → Response × Db
post_owner data' c db =
    let (c', db') = update_owner data'.owner data'.roles data'.notifications c db in
    (done, log "update_cert" c' db')

abbrev pub if_allowed : Site → Account → Certificate → Response × Db → Db → Response × Db
if_allowed w user c allowed db =
    if may_act w user c
    then allowed
    else (refusal 403 "You are not authorized to act on this certificate", db)

-- The handlers for a certificate that is found.
abbrev pub put_found : Site → Account → Edit → Certificate → Db → Response × Db
put_found w user data' c db = if_allowed w user c (put_allowed w c data' db) db

abbrev pub switches_found :
    Site → Account → (notify rotation : Option Bool) → Certificate → Db → Response × Db
switches_found w user notify rotation c db =
    if_allowed w user c (post_switches notify rotation c db) db

abbrev pub owner_found : Site → Account → Edit → Certificate → Db → Response × Db
owner_found w user data' c db =
    if w.valid_owner data'.owner
    then if_allowed w user c (post_owner data' c db) db
    else (refusal 412 "Invalid owner", db)

abbrev pub delete_found : Site → Account → Certificate → Db → Response × Db
delete_found w user c db =
    if c.deleted
    then (refusal 412 "Certificate is already deleted", db)
    else if_allowed w user c
        (refusal 204 "", log "delete_cert" c (save (record c { deleted = true }) db)) db

abbrev pub key_found : Site → Account → Certificate → Db → Response × Db
key_found w user c db = if_allowed w user c (done, log "key_view" c db) db

-- The plugin's own work is left out.
abbrev pub export_found : Site → Account → (requires_key : Bool) → Certificate → Db → Response × Db
export_found w user requires_key c db =
    if requires_key
    then (if c.has_private_key
        then if_allowed w user c (done, log "key_view" c db) db
        else (refusal 400 "Unable to export certificate, no key was found", db))
    else (done, log "key_view" c db)

unfoldable pub respond : Site → Account → Request → Certificate → Db → Response × Db
respond w user (put data') c db = put_found w user data' c db
respond w user (switches notify rotation) c db = switches_found w user notify rotation c db
respond w user (update_owners data') c db = owner_found w user data' c db
respond w user delete c db = delete_found w user c db
respond w user revokes c db = if_allowed w user c (revoke_allowed w c db) db
respond w user deactivates c db = if_allowed w user c (deactivate_allowed w c db) db
respond w user view_key c db = key_found w user c db
respond w user (export requires_key) c db = export_found w user requires_key c db

abbrev pub is_disabled : Site → Request → Bool
is_disabled w delete = not w.allow_deletion
is_disabled w _ = false

unfoldable pub handle : Site → Account → ℕ → Request → Db → Response × Db
handle w user i request db =
    if is_disabled w request
    then (refusal 405 "Certificate deletion is disabled", db)
    else elim (get i db) [
      | none ↦ (refusal 404 "Cannot find specified certificate", db)
      | some c ↦ respond w user request c db
    ]
