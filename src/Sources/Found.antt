-- ===== src/Sources/Found.antt =====
-- Certificates that a synchronisation finds, lemur/sources/service.py.
use lemur.Prelude.{
  ℕ, String, ◌≡◌, refl, ap, ◌∙◌, true, false, not, ◌&&◌, List, [], ◌∷◌, ◌++◌, ◌==◌, nat_eq, select,
  contains, any, arith,
}
use lemur.Sources.{
  Certificate, Reported, Env, Db, Run, update_found, sync_found, sync_reported, start,
  sync_certificates, find_cert,
}
use lemur.Sources.Links.{linked, sync_unlinks_what_is_left}

contains-select_other :
    (i j : ℕ) (ids : List ℕ)
    → contains j (select (λ x. not (x == i)) ids) ≡ (not (i == j) && contains j ids)
unfolding contains select
contains-select_other i j [] = ground arith
contains-select_other i j (x ∷ ids) = ground (arith, contains-select_other i j ids)

-- What a run still has to unlink after it has updated the certificates found: none of them.
existing-update_found :
    (env : Env) (label : String) (r : Reported) (j : ℕ) (found : List Certificate) (run : Run)
    → contains j (update_found env label r found run).existing
      ≡ (not (any (λ c. c.id == j) found) && contains j run.existing)
unfolding update_found any
existing-update_found env label r j [] run = refl
existing-update_found env label r j (e ∷ found) run =
    existing-update_found env label r j found _
    ∙ (let s = contains-select_other e.id j run.existing in ground (arith, s))

pub existing-sync_found :
    (env : Env) (label email : String) (r : Reported) (j : ℕ) (p : List Certificate × ℕ) (run : Run)
    → contains j (sync_found env label email r p run).existing
      ≡ (not (any (λ c. c.id == j) p.0) && contains j run.existing)
unfolding sync_found any
existing-sync_found env label email r j ([], n) run = refl
existing-sync_found env label email r j (e ∷ found, n) run =
    existing-update_found env label r j (e ∷ found) (record run { updated_by_hash = n })

existing_shrinks :
    (env : Env) (label email : String) (reported : List Reported) (j : ℕ) (run : Run)
    → contains j run.existing ≡ false
    → contains j (sync_reported env label email reported run).existing ≡ false
unfolding sync_reported
existing_shrinks env label email [] j run h = h
existing_shrinks env label email (r ∷ reported) j run h =
    let p = find_cert env r run.db.certificates in
    let e = existing-sync_found env label email r j p run in
    existing_shrinks env label email reported j _ (ground (arith, e, h))

sync_reported-append :
    (env : Env) (label email : String) (xs ys : List Reported) (run : Run)
    → sync_reported env label email (xs ++ ys) run
      ≡ sync_reported env label email ys (sync_reported env label email xs run)
unfolding sync_reported
sync_reported-append env label email [] ys run = refl
sync_reported-append env label email (x ∷ xs) ys run = sync_reported-append env label email xs ys _

-- A certificate that has the source before a synchronisation, and that the lookup of some reported
-- certificate finds in the table of that moment, has the source afterwards.
pub sync_keeps_what_is_found :
    (env : Env) (label email : String) (earlier later : List Reported) (r : Reported) (db : Db)
    (j : ℕ)
    → linked label j db.certificates ≡ true
    → any
        (λ c. c.id == j)
        (find_cert env r
          (sync_reported env label email earlier (start env label db)).db.certificates).0
      ≡ true
    → linked label j (sync_certificates env label email (earlier ++ r ∷ later) db).db.certificates
      ≡ true
unfolding sync_reported
sync_keeps_what_is_found env label email earlier later r db j h found =
    let run = sync_reported env label email earlier (start env label db) in
    let p = find_cert env r run.db.certificates in
    let e = existing-sync_found env label email r j p run in
    let gone =
      existing_shrinks env label email later j (sync_found env label email r p run)
        (ground (arith, e, found)) in
    let all_of =
      ap (λ s. contains j s.existing)
        (sync_reported-append env label email earlier (r ∷ later) (start env label db)) in
    sync_unlinks_what_is_left env label email (earlier ++ r ∷ later) db j h ∙ rw (all_of, gone) refl
