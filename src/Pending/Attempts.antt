-- ===== src/Pending/Attempts.antt =====
-- How often the order of a pending certificate is tried.
use lemur.Prelude.{
  ℕ, zero, suc, length, length-append, subst, sym, ap, ◌∙◌, String, ◌≡◌, refl, ◌+◌, ◌≤◌, ◌<◌, true,
  false, Option, none, some, List, [], ◌∷◌, nat_eq, arith, select, string_eq,
}
use lemur.Prelude.Result.{ok}
use lemur.Prelude.Table.{find, put, find-key}
use lemur.Pending.{
  PendingCertificate, Mail, pending_failure, Db, Env, pending_id, get, increment_attempt,
  get_pending_certs,
}
use lemur.Pending.Tasks.{
  Answer, acme_additional_attempts, mail, mail_reissue_failed, retry, handle_answer, handle_answers,
  fetch_acme_cert,
}
use lemur.Pending.Retries.{find-save, failed_once, retry-few, retry-many}

-- An issuer that fails every order with the same error.
abbrev pub all_fail : String → List PendingCertificate → List Answer
all_fail e [] = []
all_fail e (p ∷ ps) = record { pending_cert = p.id; cert = none; last_error = e } ∷ all_fail e ps

-- One run of the task for a certificate that is open and whose order fails.
fetch-all_fail :
    (env : Env) (id : ℕ) (notify : Option ℕ) (p : PendingCertificate) (e : String) (db db' : Db)
    → get id db ≡ some p
    → env.plugin_name p.authority_id ≡ "acme-issuer"
    → p.resolved ≡ false
    → retry env id notify p e db ≡ (ok tt, db')
    → fetch_acme_cert env (all_fail e) false id notify db
      ≡ (ok (some (record { new = 0; failed = 1 }, 0)), db')
unfolding fetch_acme_cert get_pending_certs select handle_answers handle_answer
fetch-all_fail env id notify p e db db' there acme open_ run =
    let at_id : get p.id db ≡ some p =
      subst (λ j. get j db ≡ some p) (sym (find-key pending_id id db.pending there)) there in
    rw (there, get_pending_certs)
      (rw (acme, get_pending_certs) (rw (at_id, handle_answer) (rw run (rw open_))))

-- The task for `id` run `n` times, the k-th time in the environment `env k`, while the issuer fails.
unfoldable pub runs : (ℕ → Env) → ℕ → Option ℕ → String → ℕ → Db → Db
runs env id notify e zero db = db
runs env id notify e (suc n) db =
    (fetch_acme_cert (env n) (all_fail e) false id notify (runs env id notify e n db)).1

-- The certificate is open after so many failures; since `before`, the task was put back as often
-- and nobody has been told.
pub record IsOpen (before : Db) (id authority : ℕ) (failures : ℕ) (db : Db) : Type 0 where
  pub row : PendingCertificate
  pub there : get id db ≡ some row
  pub of_authority : row.authority_id ≡ authority
  pub unresolved : row.resolved ≡ false
  pub attempts : row.number_attempts ≡ failures
  pub queued : length db.queue ≡ length before.queue + failures
  pub silent : db.mails ≡ before.mails
  pub not_issued : db.certificates ≡ before.certificates

-- The certificate is closed: it is resolved, no certificate was issued for it, and the owner, as far
-- as the row asks for it, and the security team are told once of its failure, and of the failed
-- reissue if the order was one.
pub record IsGivenUp (before : Db) (notify : Option ℕ) (id : ℕ) (db : Db) : Type 0 where
  pub row : PendingCertificate
  pub there : get id db ≡ some row
  pub resolved : row.resolved ≡ true
  pub told :
      db.mails
      ≡ (mail_reissue_failed notify row.id (mail (pending_failure row.id row.notify) before)).mails
  pub not_issued : db.certificates ≡ before.certificates
  pub not_queued : length db.queue ≡ length before.queue + 3

IsOpen-step :
    (env : Env) (notify : Option ℕ) (e : String) (before : Db) (id authority n : ℕ) (db : Db)
    → env.plugin_name authority ≡ "acme-issuer"
    → n ≤ acme_additional_attempts
    → IsOpen before id authority n db
    → IsOpen before id authority (suc n) (fetch_acme_cert env (all_fail e) false id notify db).1
unfolding increment_attempt
IsOpen-step env notify e before id authority n db acme few o =
    let p = o.row in
    let pid : p.id ≡ id = find-key pending_id id db.pending o.there in
    let at_id : get p.id db ≡ some p = subst (λ j. get j db ≡ some p) (sym pid) o.there in
    let few' : p.number_attempts ≤ acme_additional_attempts = omega (arith, o.attempts) in
    let stepped =
      fetch-all_fail env id notify p e db _ o.there (rw o.of_authority acme) o.unresolved
        (retry-few env id notify p e db at_id few') in
    let after = put pending_id (failed_once env p e) (increment_attempt env p db).pending in
    rw stepped (record {
      row = failed_once env p e;
      there =
          subst (λ j. find pending_id j after ≡ some (failed_once env p e)) pid
            (find-save env (failed_once env p e) (increment_attempt env p db).pending (
              find-save env (record p { number_attempts = p.number_attempts + 1 }) db.pending
                at_id));
      of_authority = o.of_authority;
      unresolved = o.unresolved;
      attempts = omega (arith, o.attempts);
      queued = omega (arith, o.queued, length-append db.queue ((id, notify) ∷ []));
      silent = o.silent;
      not_issued = o.not_issued;
    })

IsOpen-runs :
    (env : ℕ → Env) (notify : Option ℕ) (e : String) (id authority : ℕ) (db : Db)
    → ((k : ℕ) → (env k).plugin_name authority ≡ "acme-issuer")
    → IsOpen db id authority 0 db
    → (n : ℕ) → n ≤ acme_additional_attempts + 1
    → IsOpen db id authority n (runs env id notify e n db)
unfolding runs
IsOpen-runs env notify e id authority db acme o zero h = o
IsOpen-runs env notify e id authority db acme o (suc n) h =
    IsOpen-step (env n) notify e db id authority n (runs env id notify e n db) (acme n)
      (omega arith) (IsOpen-runs env notify e id authority db acme o n (omega arith))

mail_reissue_failed_keeps :
    (notify : Option ℕ) (i : ℕ) (m : Mail) (db before : Db)
    → db.mails ≡ before.mails
    → ((mail_reissue_failed notify i (mail m db)).pending ≡ db.pending)
      × ((mail_reissue_failed notify i (mail m db)).certificates ≡ db.certificates)
      × ((mail_reissue_failed notify i (mail m db)).queue ≡ db.queue)
      × ((mail_reissue_failed notify i (mail m db)).mails
          ≡ (mail_reissue_failed notify i (mail m before)).mails)
mail_reissue_failed_keeps none i m db before e = (refl, refl, refl, rw e)
mail_reissue_failed_keeps (some old) i m db before e = (refl, refl, refl, rw e)

IsGivenUp-step :
    (env : Env) (notify : Option ℕ) (e : String) (before : Db) (id authority : ℕ) (db : Db)
    → env.plugin_name authority ≡ "acme-issuer"
    → IsOpen before id authority 3 db
    → IsGivenUp before notify id (fetch_acme_cert env (all_fail e) false id notify db).1
IsGivenUp-step env notify e before id authority db acme o =
    let p = o.row in
    let pid : p.id ≡ id = find-key pending_id id db.pending o.there in
    let at_id : get p.id db ≡ some p = subst (λ j. get j db ≡ some p) (sym pid) o.there in
    let many : acme_additional_attempts < p.number_attempts = omega (arith, o.attempts) in
    let stepped =
      fetch-all_fail env id notify p e db _ o.there (rw o.of_authority acme) o.unresolved
        (retry-many env id notify p e db at_id many) in
    let (rows, certificates, queue, mails) =
      mail_reissue_failed_keeps notify p.id (pending_failure p.id p.notify) db before o.silent in
    let last = record p { resolved = true; last_updated = env.now } in
    rw stepped (record {
      row = last;
      there =
          subst
            (λ j.
              find pending_id j (
                put pending_id last
                  (mail_reissue_failed notify p.id
                    (mail (pending_failure p.id p.notify) db)).pending)
              ≡ some last)
            pid (find-save env (record p { resolved = true }) _ {p = p} (rw rows at_id));
      resolved = refl;
      told = mails;
      not_issued = certificates ∙ o.not_issued;
      not_queued = ap length queue ∙ o.queued;
    })

-- While the issuer fails, a pending certificate that starts with no failure stays open through three
-- runs of the task, each of which puts it back and tells nobody; the fourth run closes it for good,
-- with no certificate issued and its failure told once. So an order is tried four times.
pub tried_four_times :
    (env : ℕ → Env) (notify : Option ℕ) (e : String) (p : PendingCertificate) (db : Db)
    → ((k : ℕ) → (env k).plugin_name p.authority_id ≡ "acme-issuer")
    → get p.id db ≡ some p
    → p.resolved ≡ false
    → p.number_attempts ≡ 0
    → ((n : ℕ) → n ≤ 3 → IsOpen db p.id p.authority_id n (runs env p.id notify e n db))
      × IsGivenUp db notify p.id (runs env p.id notify e 4 db)
unfolding runs
tried_four_times env notify e p db acme there open_ fresh =
    let start : IsOpen db p.id p.authority_id 0 db = record {
      row = p;
      there = there;
      of_authority = refl;
      unresolved = open_;
      attempts = fresh;
      queued = omega arith;
      silent = refl;
      not_issued = refl;
    } in
    let later = IsOpen-runs env notify e p.id p.authority_id db acme start in
    (
      later,
      IsGivenUp-step (env 3) notify e db p.id p.authority_id _ (acme 3) (later 3 (omega arith)),
    )
