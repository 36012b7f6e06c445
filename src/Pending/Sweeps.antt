-- ===== src/Pending/Sweeps.antt =====
-- The periodic tasks over all pending certificates.
use lemur.Prelude.{
  ℕ, ◌≡◌, refl, ◌-◌, ◌*◌, Bool, false, Option, none, List, [], ◌∷◌, ◌++◌, arith, ◌==◌, nat_eq,
  string_eq, if◌then◌else◌, Bool-cases, inl, inr, select, not, ◌&&◌, ltb, any, map, append-nil,
  append_assoc, ◌∙◌,
}
use lemur.Prelude.Int.{day}
use lemur.Prelude.Table.{find-drop}
use lemur.Pending.{
  PendingCertificate, Db, Env, pending_id, get, delete, get_unresolved_pending_certs,
}
use lemur.Pending.Tasks.{
  five_minutes, uses_acme, delay, trigger_all, fetch_all_pending_acme_certs, delete_old,
  remove_old_acme_certs,
}

-- The certificates that are due for another try.
abbrev pub is_due : Env → PendingCertificate → Bool
is_due env p = not p.resolved && (uses_acme env p && ltb five_minutes (env.now - p.last_updated))

abbrev pub task_for : PendingCertificate → ℕ × Option ℕ
task_for p = (p.id, none)

trigger_all-queue :
    (env : Env) (ps : List PendingCertificate) (db : Db)
    → trigger_all env (select (λ p. not p.resolved) ps) db
      ≡ record db { queue = db.queue ++ map task_for (select (is_due env) ps) }
unfolding trigger_all select
trigger_all-queue env [] db = rw append-nil
trigger_all-queue env (p ∷ ps) db = elim (Bool-cases p.resolved) [
  | inl done ↦ rw done (trigger_all-queue env ps db)
  | inr open_ ↦ elim (Bool-cases (uses_acme env p && ltb five_minutes (env.now - p.last_updated))) [
    | inl due ↦
        rw (open_, due)
          (trigger_all-queue env ps (delay p.id none db)
            ∙ rw (append_assoc db.queue (task_for p ∷ []) (map task_for (select (is_due env) ps))))
    | inr early ↦ rw (open_, early) (trigger_all-queue env ps db)
  ]
]

-- The sweep puts a task in the queue for each open certificate of the ACME issuer that was last
-- written more than five minutes ago, in the order of the table and once each, and for no other, and
-- changes nothing else.
pub fetch_all-queue :
    (env : Env) (db : Db)
    → fetch_all_pending_acme_certs env false db
      ≡ record db { queue = db.queue ++ map task_for (select (is_due env) db.pending) }
unfolding fetch_all_pending_acme_certs get_unresolved_pending_certs
fetch_all-queue env db = trigger_all-queue env db.pending db

-- Last written more than a week ago.
abbrev pub is_old : Env → PendingCertificate → Bool
is_old env p = ltb (7 * day) (env.now - p.last_updated)

get-delete_old :
    (env : Env) (i : ℕ) (ps : List PendingCertificate) (db : Db)
    → get i (delete_old env ps db)
      ≡ (if any (λ p. p.id == i && is_old env p) ps then none else get i db)
unfolding delete_old delete any
get-delete_old env i [] db = refl
get-delete_old env i (p ∷ ps) db = elim (Bool-cases (is_old env p)) [
  | inl old ↦
      rw (old, delete_old)
        (get-delete_old env i ps (delete p db)
          ∙ ground (arith, find-drop pending_id p.id i db.pending))
  | inr young ↦ rw (young, delete_old) (get-delete_old env i ps db ∙ ground arith)
]

-- The weekly sweep removes the certificates that were last written more than seven days ago, and the
-- other ones stay as they are.
pub get-remove_old :
    (env : Env) (i : ℕ) (db : Db)
    → get i (remove_old_acme_certs env false db)
      ≡ (if any (λ p. p.id == i && is_old env p) db.pending then none else get i db)
unfolding remove_old_acme_certs
get-remove_old env i db = get-delete_old env i db.pending db
