-- ===== src/Sources/Links.antt =====
-- Which certificates a synchronisation leaves linked to its source, lemur/sources/service.py.
use lemur.Prelude.{
  ℕ, String, ◌≡◌, refl, sym, ap, ◌∙◌, subst, Bool, true, false, not, ◌&&◌, Option, none, some, List,
  [], ◌∷◌, ◌==◌, nat_eq, string_eq, if◌then◌else◌, select, contains, arith, Bool-cases, inl, inr,
  contains-append, contains-head,
}
use lemur.Prelude.Table.{find, modify, find-modify, first-append}
use lemur.Sources.{
  Certificate, Reported, Env, Db, Run, certificate_id, certificate_update, set_reported,
  certificate_create, update_found, sync_found, sync_reported, remove_associations, unlink, start,
  sync_certificates, find_cert, add_label, sync_update_destination,
}

abbrev pub has_source : String → Option Certificate → Bool
has_source label none = false
has_source label (some c) = contains label c.sources

-- Whether the certificate of that number is there and has the source.
unfoldable pub linked : String → ℕ → List Certificate → Bool
linked label i rows = has_source label (find certificate_id i rows)

contains-add_label :
    (label : String) (labels : List String) → contains label (add_label label labels) ≡ true
unfolding contains
contains-add_label label labels =
    let e = contains-append label labels (label ∷ []) in
    let f = contains-head label [] in ground (arith, e, f)

keeps_id :
    (env : Env) (label : String) (r : Reported) (c : Certificate)
    → (certificate_update env label (set_reported r c)).id ≡ c.id
unfolding certificate_update sync_update_destination
keeps_id env label r c = refl

kept_id :
    (env : Env) (label : String) (c : Certificate) → (remove_associations env label c).id ≡ c.id
unfolding remove_associations
kept_id env label c = refl

updated_linked :
    (env : Env) (label : String) (r : Reported) (c : Certificate)
    → contains label (certificate_update env label (set_reported r c)).sources ≡ true
unfolding certificate_update sync_update_destination
updated_linked env label r c = contains-add_label label c.sources

abbrev map_row : (Certificate → Certificate) → Option Certificate → Option Certificate
map_row f none = none
map_row f (some c) = some (f c)

find-modify_row :
    (i j : ℕ) (f : Certificate → Certificate) (rows : List Certificate)
    → ((c : Certificate) → (f c).id ≡ c.id)
    → find certificate_id j (modify certificate_id i f rows)
      ≡ (if i == j then map_row f (find certificate_id j rows) else find certificate_id j rows)
find-modify_row i j f rows keeps =
    let e = find-modify certificate_id i j f rows keeps in ground (arith, e)

has_source-map :
    (label : String) (b : Bool) (f : Certificate → Certificate) (o : Option Certificate)
    → ((c : Certificate) → contains label (f c).sources ≡ true)
    → has_source label o ≡ true
    → has_source label (if b then map_row f o else o) ≡ true
has_source-map label true f (some c) says h = says c
has_source-map label false f o says h = h
has_source-map label true f none says h = h

-- A certificate that has the source has it still after a change that gives it to a certificate.
linked-give :
    (label : String) (i j : ℕ) (f : Certificate → Certificate) (rows : List Certificate)
    → ((c : Certificate) → (f c).id ≡ c.id)
    → ((c : Certificate) → contains label (f c).sources ≡ true)
    → linked label j rows ≡ true
    → linked label j (modify certificate_id i f rows) ≡ true
unfolding linked
linked-give label i j f rows keeps says h =
    subst (λ o. has_source label o ≡ true) (sym (find-modify_row i j f rows keeps))
      (has_source-map label (i == j) f _ says h)

linked-update_found :
    (env : Env) (label : String) (r : Reported) (j : ℕ) (found : List Certificate) (run : Run)
    → linked label j run.db.certificates ≡ true
    → linked label j (update_found env label r found run).db.certificates ≡ true
unfolding update_found
linked-update_found env label r j [] run h = h
linked-update_found env label r j (e ∷ found) run h = linked-update_found env label r j found _ (
    linked-give label e.id j (λ c. certificate_update env label (set_reported r c))
      run.db.certificates (keeps_id env label r) (updated_linked env label r) h)

has_source-append :
    (label : String) (o o' : Option Certificate)
    → has_source label o ≡ true
    → has_source label (elim o [ some c ↦ some c | none ↦ o' ]) ≡ true
has_source-append label none o' h = cc
has_source-append label (some c) o' h = h

linked-certificate_create :
    (env : Env) (label email : String) (r : Reported) (j : ℕ) (db : Db)
    → linked label j db.certificates ≡ true
    → linked label j (certificate_create env label email r db).certificates ≡ true
unfolding certificate_create linked find
linked-certificate_create env label email r j db h =
    subst (λ o. has_source label o ≡ true) (sym (first-append (λ c. c.id == j) db.certificates _))
      (has_source-append label _ _ h)

linked-sync_found :
    (env : Env) (label email : String) (r : Reported) (j : ℕ) (p : List Certificate × ℕ) (run : Run)
    → linked label j run.db.certificates ≡ true
    → linked label j (sync_found env label email r p run).db.certificates ≡ true
unfolding sync_found
linked-sync_found env label email r j ([], n) run h =
    linked-certificate_create env label email r j run.db h
linked-sync_found env label email r j (e ∷ found, n) run h =
    linked-update_found env label r j (e ∷ found) (record run { updated_by_hash = n }) h

pub linked-sync_reported :
    (env : Env) (label email : String) (reported : List Reported) (j : ℕ) (run : Run)
    → linked label j run.db.certificates ≡ true
    → linked label j (sync_reported env label email reported run).db.certificates ≡ true
unfolding sync_reported
linked-sync_reported env label email [] j run h = h
linked-sync_reported env label email (r ∷ reported) j run h =
    linked-sync_reported env label email reported j _
      (linked-sync_found env label email r j (find_cert env r run.db.certificates) run h)

contains-without :
    (label : String) (labels : List String)
    → contains label (select (λ l. not (l == label)) labels) ≡ false
unfolding contains select
contains-without label [] = refl
contains-without label (l ∷ labels) = elim (Bool-cases (l == label)) [
  | inl e ↦ rw e (contains-without label labels)
  | inr e ↦ rw (e, e) (contains-without label labels)
]

has_source-remove :
    (env : Env) (label : String) (b : Bool) (o : Option Certificate)
    → has_source label (if b then map_row (remove_associations env label) o else o)
      ≡ (not b && has_source label o)
unfolding remove_associations
has_source-remove env label true none = refl
has_source-remove env label true (some c) = contains-without label c.sources
has_source-remove env label false o = refl

linked-remove :
    (env : Env) (label : String) (i j : ℕ) (rows : List Certificate)
    → linked label j (modify certificate_id i (remove_associations env label) rows)
      ≡ (not (i == j) && linked label j rows)
unfolding linked
linked-remove env label i j rows =
    ap (has_source label)
      (find-modify_row i j (remove_associations env label) rows (kept_id env label))
    ∙ has_source-remove env label (i == j) (find certificate_id j rows)

linked-unlink :
    (env : Env) (label : String) (j : ℕ) (left : List ℕ) (rows : List Certificate)
    → linked label j (unlink env label left rows) ≡ (not (contains j left) && linked label j rows)
unfolding unlink contains
linked-unlink env label j [] rows = refl
linked-unlink env label j (i ∷ left) rows =
    let e = linked-remove env label i j rows in
    let rest =
      linked-unlink env label j left
        (modify certificate_id i (remove_associations env label) rows) in
    ground (arith, e, rest)

-- A certificate that has the source before a synchronisation has it afterwards exactly when it is not
-- among those that the loop has left to unlink.
pub sync_unlinks_what_is_left :
    (env : Env) (label email : String) (reported : List Reported) (db : Db) (j : ℕ)
    → linked label j db.certificates ≡ true
    → linked label j (sync_certificates env label email reported db).db.certificates
      ≡ not (contains j (sync_reported env label email reported (start env label db)).existing)
unfolding sync_certificates start
sync_unlinks_what_is_left env label email reported db j h =
    let run = sync_reported env label email reported (start env label db) in
    let before = linked-sync_reported env label email reported j (start env label db) h in
    let e = linked-unlink env label j run.existing run.db.certificates in ground (arith, e, before)
