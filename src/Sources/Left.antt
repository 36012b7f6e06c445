-- ===== src/Sources/Left.antt =====
-- Which certificates a synchronisation takes off its source, lemur/sources/service.py.
use lemur.Prelude.{
  ℕ, String, ◌≡◌, refl, ◌∙◌, Bool, true, false, not, ◌&&◌, ◌||◌, List, [], ◌∷◌, ◌==◌, nat_eq,
  string_eq, contains, any, map, leb, arith,
}
use lemur.Prelude.Table.{find, distinct, passes, contains-selected}
use lemur.Sources.{
  Certificate, Reported, Env, Db, Run, certificate_id, sync_found, sync_reported, start,
  sync_certificates, find_cert, get_all_valid_certificates_with_source,
}
use lemur.Sources.Links.{linked, sync_unlinks_what_is_left}
use lemur.Sources.Found.{existing-sync_found}

-- Whether the lookup of some reported certificate, in the table of the moment of its round, comes to
-- the certificate of that number.
unfoldable pub is_found : Env → String → (email : String) → ℕ → List Reported → Run → Bool
is_found env label email j [] run = false
is_found env label email j (r ∷ reported) run =
    any (λ c. c.id == j) (find_cert env r run.db.certificates).0
    || is_found env label email j reported
        (sync_found env label email r (find_cert env r run.db.certificates) run)

existing-sync_reported :
    (env : Env) (label email : String) (reported : List Reported) (j : ℕ) (run : Run)
    → contains j (sync_reported env label email reported run).existing
      ≡ (not (is_found env label email j reported run) && contains j run.existing)
unfolding sync_reported is_found
existing-sync_reported env label email [] j run = refl
existing-sync_reported env label email (r ∷ reported) j run =
    let p = find_cert env r run.db.certificates in
    let one = existing-sync_found env label email r j p run in
    let rest =
      existing-sync_reported env label email reported j (sync_found env label email r p run) in
    ground (arith, one, rest)

-- A certificate of the source that is not revoked, not past its end and not replaced.
unfoldable pub is_valid_with_source : Env → String → Certificate → Bool
is_valid_with_source env label c =
    contains label c.sources && not c.revoked && leb env.now c.not_after && not c.replaced

-- Where the numbers of the certificates are distinct, a certificate that has the source before a
-- synchronisation has it afterwards exactly when the lookup of some reported certificate, in the table
-- of the moment, comes to it, or when it was revoked, past its end or replaced before.
pub sync_unlinks_the_unfound :
    (env : Env) (label email : String) (reported : List Reported) (db : Db) (j : ℕ)
    → distinct (map certificate_id db.certificates) ≡ true
    → linked label j db.certificates ≡ true
    → linked label j (sync_certificates env label email reported db).db.certificates ≡ (
        is_found env label email j reported (start env label db)
        || not (passes (is_valid_with_source env label) (find certificate_id j db.certificates)))
unfolding start get_all_valid_certificates_with_source is_valid_with_source
sync_unlinks_the_unfound env label email reported db j d h =
    let valid : Certificate → Bool =
      λ c. contains label c.sources && not c.revoked && leb env.now c.not_after && not c.replaced in
    let left = existing-sync_reported env label email reported j (start env label db) in
    let listed = contains-selected certificate_id valid j db.certificates d in
    sync_unlinks_what_is_left env label email reported db j h ∙ ground (arith, left, listed)
