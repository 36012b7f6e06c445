-- ===== src/Pending/Once.antt =====
-- A pending certificate becomes at most one certificate.
use lemur.Prelude.{
  ℕ, ◌≡◌, refl, ◌+◌, true, false, Option, none, some, List, [], ◌∷◌, nat_eq, inl, inr, ◌⊎◌, ap,
}
use lemur.Prelude.Result.{ok}
use lemur.Pending.{
  PendingCertificate, Issued, Certificate, Db, Env, get, save, log, set_resolved,
  set_resolved_cert_id, create_certificate, import_data,
}
use lemur.Pending.Tasks.{Answer, Counts, mail_reissued, resolve, handle_answer, handle_answers}
use lemur.Pending.Retries.{find-save, update_found}

-- The certificate of that number is not open: it is resolved, or it is gone.
abbrev pub IsClosed : ℕ → Db → Type 0
IsClosed id db =
    (get id db ≡ none) ⊎ ((p : PendingCertificate) × (get id db ≡ some p) × (p.resolved ≡ true))

-- All answers are about one certificate.
abbrev pub AllAbout : ℕ → List Answer → Type 0
AllAbout id [] = Unit
AllAbout id (a ∷ answers) = (a.pending_cert ≡ id) × AllAbout id answers

handle_answer-closed :
    (env : Env) (task id : ℕ) (notify : Option ℕ) (a : Answer) (counts : Counts) (db : Db)
    → a.pending_cert ≡ id
    → IsClosed id db
    → handle_answer env task notify a counts db ≡ (ok counts, db)
unfolding handle_answer
handle_answer-closed env task id notify a counts db e (inl gone) = rw (e, handle_answer) (rw gone)
handle_answer-closed env task id notify a counts db e (inr (p, there, done)) =
    rw (e, handle_answer) (rw there (rw done))

pub handle_answers-closed :
    (env : Env) (task id : ℕ) (notify : Option ℕ) (answers : List Answer) (counts : Counts)
    (db : Db)
    → AllAbout id answers
    → IsClosed id db
    → handle_answers env task notify answers counts db ≡ (ok counts, db)
unfolding handle_answers
handle_answers-closed env task id notify [] counts db h c = refl
handle_answers-closed env task id notify (a ∷ answers) counts db h c =
    rw (handle_answer-closed env task id notify a counts db h.0 c, handle_answers)
      (handle_answers-closed env task id notify answers counts db h.1 c)

mail_reissued_keeps :
    (notify : Option ℕ) (new : ℕ) (db : Db)
    → ((mail_reissued notify new db).pending ≡ db.pending)
      × ((mail_reissued notify new db).certificates ≡ db.certificates)
      × ((mail_reissued notify new db).queue ≡ db.queue)
mail_reissued_keeps none new db = (refl, refl, refl)
mail_reissued_keeps (some old) new db = (refl, refl, refl)

-- What the loop leaves after it was answered a certificate for an open pending one.
pub record IsIssued (env : Env) (p : PendingCertificate) (c : Certificate)
    (certificates : List Certificate) (before db : Db) : Type 0 where
  pub row :
      get p.id db
      ≡ some (record p { resolved = true; resolved_cert_id = some c.id; last_updated = env.now })
  pub stored : db.certificates ≡ certificates
  pub queue : db.queue ≡ before.queue

-- The database as the creation of the certificate leaves it.
abbrev issued_db : Certificate → List Certificate → Db → Db
issued_db c certificates db =
    log "certificate_from_pending_certificate" c.name (record db { certificates = certificates })

create_certificate_ok :
    (env : Env) (p : PendingCertificate) (issued : Issued) (c : Certificate)
    (certificates : List Certificate) (db : Db)
    → env.load issued ≡ true
    → env.import_certificate (import_data env p issued p.user_id) db.certificates
      ≡ (ok c, certificates)
    → create_certificate env p issued p.user_id db ≡ (ok c, issued_db c certificates db)
unfolding create_certificate
create_certificate_ok env p issued c certificates db loads imports =
    let stored : (env.import_certificate (import_data env p issued p.user_id) db.certificates).1
        ≡ certificates =
      ap (λ t. t.1) imports in
    rw loads (rw (imports, stored))

resolve-IsIssued :
    (env : Env) (notify : Option ℕ) (p : PendingCertificate) (issued : Issued) (c : Certificate)
    (certificates : List Certificate) (db : Db)
    → get p.id db ≡ some p
    → env.load issued ≡ true
    → env.import_certificate (import_data env p issued p.user_id) db.certificates
      ≡ (ok c, certificates)
    → ((resolve env notify p issued db).0 ≡ ok tt)
      × IsIssued env p c certificates db (resolve env notify p issued db).1
unfolding resolve
resolve-IsIssued env notify p issued c certificates db there loads imports =
    let db1 = issued_db c certificates db in
    let p1 = record p { resolved_cert_id = some c.id } in
    let p2 = record p { resolved_cert_id = some c.id; last_updated = env.now } in
    let found1 : get p.id (save env p1 db1) ≡ some p2 = find-save env p1 db.pending there in
    let db2 = log "update_pending_certificate" p.name (save env p1 db1) in
    let p3 = record p { resolved = true; resolved_cert_id = some c.id; last_updated = env.now } in
    let found2 : get p.id (save env p3 db2) ≡ some p3 = find-save env p3 db2.pending found1 in
    let (rows, stored, queue) =
      mail_reissued_keeps notify c.id (log "update_pending_certificate" p.name (save env p3 db2)) in
    rw (create_certificate_ok env p issued c certificates db loads imports) (
      rw (update_found env p.id (set_resolved_cert_id c.id) db1 there) (
        rw (update_found env p.id (set_resolved true) db2 found1)
          (refl, record { row = rw rows found2; stored = stored; queue = queue })))

-- An open pending certificate for which the issuer returns a certificate that the schema and the
-- certificate service accept is resolved by it: the row names the new certificate, the store is what
-- the service made of it, one certificate is counted, and the queue stays as it is. Whatever the
-- issuer answers later about the same pending certificate changes nothing, so that it is imported
-- once.
pub issued_once :
    (env env' : Env) (task task' : ℕ) (notify notify' : Option ℕ) (p : PendingCertificate)
    (a : Answer) (issued : Issued) (c : Certificate) (certificates : List Certificate)
    (counts counts' : Counts) (later : List Answer) (db : Db)
    → get p.id db ≡ some p
    → p.resolved ≡ false
    → a.pending_cert ≡ p.id
    → a.cert ≡ some issued
    → env.load issued ≡ true
    → env.import_certificate (import_data env p issued p.user_id) db.certificates
      ≡ (ok c, certificates)
    → AllAbout p.id later
    → (after : Db) × (handle_answer env task notify a counts db
        ≡ (ok (record counts { new = counts.new + 1 }), after))
      × IsIssued env p c certificates db after
      × (handle_answers env' task' notify' later counts' after ≡ (ok counts', after))
unfolding handle_answer
issued_once env env' task task' notify notify' p a issued c certificates counts counts' later db
      there open_ about answer loads imports all =
    let (done, i) = resolve-IsIssued env notify p issued c certificates db there loads imports in
    let after = (resolve env notify p issued db).1 in
    (
      after,
      rw (about, handle_answer) (rw there (rw (answer, done) (rw open_))),
      i,
      handle_answers-closed env' task' p.id notify' later counts' after all (
          inr (
            record p { resolved = true; resolved_cert_id = some c.id; last_updated = env.now },
            i.row,
            refl,
          )),
    )
