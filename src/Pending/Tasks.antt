-- ===== src/Pending/Tasks.antt =====
-- The celery tasks over pending certificates.
use lemur.Prelude.{
  ℕ, String, ◌+◌, ◌*◌, ◌-◌, Bool, true, Option, none, some, List, [], ◌∷◌, ◌++◌, ◌==◌, nat_eq,
  string_eq, if◌then◌else◌, ltb, select, not, length, ◌&&◌,
}
use lemur.Prelude.Result.{ok, Exec, ◌>>=◌, ◌>>◌}
use lemur.Prelude.Int.{day}
use lemur.Pending.{
  PendingCertificate, Issued, Mail, pending_failure, reissue_failed, reissued_with_no_endpoints,
  Exception, Db, Env, set_resolved, set_resolved_cert_id, set_status, get, update,
  increment_attempt, delete, get_pending_certs, get_unresolved_pending_certs, create_certificate,
}

-- `ACME_ADDITIONAL_ATTEMPTS` of lemur/constants.py
abbrev pub acme_additional_attempts : ℕ
acme_additional_attempts = 2

-- One entry of what `get_ordered_certificates` returns.
pub record Answer : Type 0 where
  pub pending_cert : ℕ
  pub cert : Option Issued
  pub last_error : String

pub record Counts : Type 0 where
  pub new : ℕ
  pub failed : ℕ

abbrev pub mail : Mail → Db → Db
mail m db = record db { mails = db.mails ++ m ∷ [] }

-- `fetch_acme_cert.delay(id, notify_reissue_cert_id)`
abbrev pub delay : ℕ → Option ℕ → Db → Db
delay id notify db = record db { queue = db.queue ++ (id, notify) ∷ [] }

abbrev act : (Db → Db) → Exec Exception Db (Unit {0})
act f db = (ok tt, f db)

abbrev pub mail_reissued : Option ℕ → ℕ → Db → Db
mail_reissued none new db = db
mail_reissued (some old) new db = mail (reissued_with_no_endpoints old new) db

abbrev pub mail_reissue_failed : Option ℕ → ℕ → Db → Db
mail_reissue_failed none id db = db
mail_reissue_failed (some old) id db = mail (reissue_failed id) db

-- The branch of a real certificate.
unfoldable pub resolve : Env → Option ℕ → PendingCertificate → Issued → Exec Exception Db (Unit {0})
resolve env notify p issued = do
  final_cert ← create_certificate env p issued p.user_id
  update env p.id (set_resolved_cert_id final_cert.id)
  update env p.id (set_resolved true)
  act (mail_reissued notify final_cert.id)

-- The branch of a failed order: after too many attempts it is given up, else the task is put back.
unfoldable pub retry :
    Env → ℕ → Option ℕ → PendingCertificate → String → Exec Exception Db (Unit {0})
retry env id notify p last_error =
    if ltb acme_additional_attempts p.number_attempts
    then (do
      act (mail (pending_failure p.id p.notify))
      act (mail_reissue_failed notify p.id)
      update env p.id (set_resolved true)
      act (λ db. db))
    else (do
      act (increment_attempt env p)
      update env p.id (set_status last_error)
      act (delay id notify))

-- The body of the loop over the answers.
unfoldable pub handle_answer : Env → ℕ → Option ℕ → Answer → Counts → Exec Exception Db Counts
handle_answer env id notify answer counts db = elim (get answer.pending_cert db) [
  | none ↦ (ok counts, db)
  | some p ↦ if p.resolved then (ok counts, db) else elim answer.cert [
    | some issued ↦
        (resolve env notify p issued >>= λ _ s. (ok (record counts { new = counts.new + 1 }), s)) db
    | none ↦
        (retry env id notify p answer.last_error >>= λ _ s.
        (ok (record counts { failed = counts.failed + 1 }), s))
          db
  ]
]

unfoldable pub handle_answers : Env → ℕ → Option ℕ → List Answer → Counts → Exec Exception Db Counts
handle_answers env id notify [] counts = λ db. (ok counts, db)
handle_answers env id notify (a ∷ answers) counts =
    handle_answer env id notify a counts >>= handle_answers env id notify answers

abbrev pub uses_acme : Env → PendingCertificate → Bool
uses_acme env p = env.plugin_name p.authority_id == "acme-issuer"

-- `fetch_acme_cert`: `ordered` is `get_ordered_certificates` of the issuer, and `active` says whether
-- the task is running already. The second number counts the certificates of other issuers.
unfoldable pub fetch_acme_cert :
    Env
    → (ordered : List PendingCertificate → List Answer) → (active : Bool) → ℕ
    → Option ℕ
    → Exec Exception Db (Option (Counts × ℕ))
fetch_acme_cert env ordered active id notify db =
    if active
    then (ok none, db)
    else (let pending_certs = get_pending_certs (id ∷ []) db in
        let acme_certs = select (uses_acme env) pending_certs in
        let wrong_issuer = length (select (λ p. not (uses_acme env p)) pending_certs) in
        (handle_answers env id notify (ordered acme_certs) (record { new = 0; failed = 0 })
            >>= λ counts s. (ok (some (counts, wrong_issuer)), s))
          db)

abbrev pub five_minutes : ℕ
five_minutes = 300

-- The loop of `fetch_all_pending_acme_certs`; no commit lies in the future.
unfoldable pub trigger_all : Env → List PendingCertificate → Db → Db
trigger_all env [] db = db
trigger_all env (p ∷ ps) db = trigger_all env ps (
    if uses_acme env p && ltb five_minutes (env.now - p.last_updated)
    then delay p.id none db
    else db)

unfoldable pub fetch_all_pending_acme_certs : Env → (active : Bool) → Db → Db
fetch_all_pending_acme_certs env active db =
    if active then db else trigger_all env (get_unresolved_pending_certs db) db

-- The loop of `remove_old_acme_certs`.
unfoldable pub delete_old : Env → List PendingCertificate → Db → Db
delete_old env [] db = db
delete_old env (p ∷ ps) db =
    delete_old env ps (if ltb (7 * day) (env.now - p.last_updated) then delete p db else db)

unfoldable pub remove_old_acme_certs : Env → (active : Bool) → Db → Db
remove_old_acme_certs env active db = if active then db else delete_old env db.pending db
