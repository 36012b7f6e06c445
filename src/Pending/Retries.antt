-- ===== src/Pending/Retries.antt =====
-- What one failure of an order does to its pending certificate.
use lemur.Prelude.{
  ℕ, String, ◌≡◌, ◌+◌, ◌≤◌, ◌<◌, true, false, Option, none, some, List, nat_eq, arith, ltb,
  string_eq, beq_refl,
}
use lemur.Prelude.Result.{ok}
use lemur.Prelude.Table.{find, put, find-put}
use lemur.Pending.{
  PendingCertificate, pending_failure, Db, Env, pending_id, get, save, log, update, Change, setattr,
  increment_attempt, set_status, set_resolved,
}
use lemur.Pending.Tasks.{acme_additional_attempts, mail, mail_reissue_failed, delay, retry}

-- The commit of a row that is there shows at its number.
pub find-save :
    (env : Env) (p' : PendingCertificate) (rows : List PendingCertificate) {p : PendingCertificate}
    → find pending_id p'.id rows ≡ some p
    → find pending_id p'.id (put pending_id (record p' { last_updated = env.now }) rows)
      ≡ some (record p' { last_updated = env.now })
find-save env p' rows e =
    rw (find-put pending_id p'.id (record p' { last_updated = env.now }) rows, beq_refl p'.id)
      (rw e)

-- What `update` does to a row that is there.
pub update_found :
    (env : Env) (i : ℕ) (c : Change) (db : Db) {p : PendingCertificate}
    → get i db ≡ some p
    → update env i c db
      ≡ (ok (setattr c p), log "update_pending_certificate" p.name (save env (setattr c p) db))
unfolding update
update_found env i c db {p} e = rw (e, update)

-- The row after one more failure, and the database after the task was put back.
abbrev pub failed_once : Env → PendingCertificate → String → PendingCertificate
failed_once env p e = record p {
  number_attempts = p.number_attempts + 1;
  status = e;
  last_updated = env.now;
}

pub retry-few :
    (env : Env) (id : ℕ) (notify : Option ℕ) (p : PendingCertificate) (e : String) (db : Db)
    → get p.id db ≡ some p
    → p.number_attempts ≤ acme_additional_attempts
    → retry env id notify p e db ≡ (
      ok tt,
      delay id notify (
          log "update_pending_certificate" p.name
            (save env (failed_once env p e) (increment_attempt env p db))),
    )
unfolding retry increment_attempt
retry-few env id notify p e db there few =
    let small : ltb acme_additional_attempts p.number_attempts ≡ false = ground arith in
    rw small (
      rw (
        update_found env p.id (set_status e) (increment_attempt env p db)
          (find-save env (record p { number_attempts = p.number_attempts + 1 }) db.pending there)))

pub retry-many :
    (env : Env) (id : ℕ) (notify : Option ℕ) (p : PendingCertificate) (e : String) (db : Db)
    → get p.id db ≡ some p
    → acme_additional_attempts < p.number_attempts
    → retry env id notify p e db ≡ (
      ok tt,
      log "update_pending_certificate" p.name (
          save env
            (record p { resolved = true })
            (mail_reissue_failed notify p.id (mail (pending_failure p.id p.notify) db))),
    )
unfolding retry
retry-many env id none p e db there many =
    let large : ltb acme_additional_attempts p.number_attempts ≡ true = ground arith in
    rw large (
      rw
        (update_found env p.id (set_resolved true) (mail (pending_failure p.id p.notify) db) there))
retry-many env id (some old) p e db there many =
    let large : ltb acme_additional_attempts p.number_attempts ≡ true = ground arith in
    rw large (
      rw (
        update_found env p.id (set_resolved true)
          (mail_reissue_failed (some old) p.id (mail (pending_failure p.id p.notify) db)) there))
