-- ===== src/Destinations/Deleted.antt =====
-- What the deletion of a destination does to the certificates.
use lemur.Prelude.{
  ℕ, String, Bool, true, false, not, ◌&&◌, ◌≡◌, refl, ap, ◌∙◌, Option, none, some, List, [], ◌∷◌,
  ◌==◌, string_eq, nat_eq, nat_beq_iff, ◌||◌, ◌++◌, any, Bool-cases, if◌then◌else◌, select,
  contains, map, arith, Option-cases, inl, inr,
}
use lemur.Prelude.Table.{
  find, first, find-put, find-key, distinct, passes, distinct-select, contains-selected,
  same_contains,
}
use lemur.Certificates
use lemur.Certificates.{
  Certificate, certificate_id, Plugins, save, remove, remove_destination_association,
  remove_from_destination, has_label,
}
use lemur.Certificates.Revocation.{has_label-remove}
use lemur.Destinations.{
  Destination, Site, Db, get, is_valid, get_all_valid_certificates_with_destination, remove_one,
  remove_all, drop_associations, delete, reference,
}

-- The certificate without the destinations of a label.
abbrev pub unassigned : String → Option Certificate → Option Certificate
unassigned l none = none
unassigned l (some c) =
    some (record c { destinations = select (λ x. not (x.label == l)) c.destinations })

remove_one-find :
    (p : Plugins) (d : Destination) (i j : ℕ) (db : Certificates.Db)
    → find certificate_id j (remove_one p d i db).certificates ≡ (
        if i == j
        then unassigned d.label (find certificate_id j db.certificates)
        else find certificate_id j db.certificates)
unfolding remove_one remove_destination_association remove
remove_one-find p d i j db = elim (Option-cases (find certificate_id i db.certificates)) [
  | inl n ↦ rw (n, remove_one) (ground (arith, n, same, nat_beq_iff i j))
  | inr (c, f) ↦
      rw (f, remove_one)
        (ground (
          arith,
          f,
          same,
          nat_beq_iff i j,
          find-key certificate_id i db.certificates f,
          find-put certificate_id j
              (record c { destinations = select (λ x. not (x.label == d.label)) c.destinations })
              db.certificates,
        ))
]
  where
    same : i ≡ j → find certificate_id i db.certificates ≡ find certificate_id j db.certificates
    same e = ap (λ n. find certificate_id n db.certificates) e

remove_all-find :
    (p : Plugins) (d : Destination) (j : ℕ) (ids : List ℕ) (db : Certificates.Db)
    → distinct ids ≡ true
    → find certificate_id j (remove_all p d ids db).certificates ≡ (
        if contains j ids
        then unassigned d.label (find certificate_id j db.certificates)
        else find certificate_id j db.certificates)
unfolding remove_all distinct contains
remove_all-find p d j [] db h = refl
remove_all-find p d j (i ∷ ids) db h = ground (
  arith,
  remove_all-find p d j ids (remove_one p d i db),
  remove_one-find p d i j db,
  same_contains i j ids,
  nat_beq_iff i j,
)

-- Whether a row that was found has the destination.
abbrev pub is_assigned : String → Option Certificate → Bool
is_assigned l none = false
is_assigned l (some c) = has_label l c.destinations

is_assigned-unassigned :
    (l k : String) (o : Option Certificate)
    → is_assigned k (unassigned l o) ≡ (is_assigned k o && not (l == k))
unfolding select remove
is_assigned-unassigned l k none = refl
is_assigned-unassigned l k (some c) =
    has_label-remove k (record { label = l; plugin_name = ""; options = [] }) c.destinations

passes_both :
    (l : String) (v : Certificate → Bool) (o : Option Certificate)
    → passes (λ c. has_label l c.destinations && v c) o ≡ (is_assigned l o && passes v o)
passes_both l v none = refl
passes_both l v (some c) = refl

find-drop_associations :
    (d : Destination) (j : ℕ) (rows : List Certificate)
    → find certificate_id j (drop_associations d rows)
      ≡ unassigned d.label (find certificate_id j rows)
unfolding drop_associations find first remove
find-drop_associations d j [] = refl
find-drop_associations d j (r ∷ rows) = elim (Bool-cases (r.id == j)) [
  | inl e ↦ rw e refl
  | inr e ↦ rw e (find-drop_associations d j rows)
]

-- Whether a certificate was cleaned from a destination of that label.
abbrev pub was_cleaned : ℕ → String → List (ℕ × String) → Bool
was_cleaned j l cleaned = any (λ x. x.0 == j && x.1 == l) cleaned

-- Whether the plugin of a destination cleans a certificate and does not raise.
abbrev pub is_clean : Option String → Bool
is_clean none = true
is_clean (some e) = false

abbrev pub cleans : Plugins → ℕ → Certificates.Destination → Bool
cleans p i d = p.has_clean d.plugin_name && is_clean (p.clean i d)

any-append :
    (t : ℕ × String → Bool) (xs ys : List (ℕ × String)) → any t (xs ++ ys) ≡ (any t xs || any t ys)
unfolding any
any-append t [] ys = refl
any-append t (x ∷ xs) ys = ground (arith, any-append t xs ys)

was_cleaned-remove :
    (p : Plugins) (i j : ℕ) (d : Certificates.Destination) (l : String)
    (cleaned : List (ℕ × String))
    → was_cleaned j l (remove_from_destination p i d cleaned).1
      ≡ (was_cleaned j l cleaned || (i == j && d.label == l && cleans p i d))
unfolding remove_from_destination any
was_cleaned-remove p i j d l cleaned = elim (Bool-cases (p.has_clean d.plugin_name)) [
  | inr h ↦ rw h (ground arith)
  | inl h ↦ elim (Option-cases (p.clean i d)) [
    | inr (e, f) ↦ rw (h, f) (ground arith)
    | inl f ↦
        rw (h, f, any-append (λ x. x.0 == j && x.1 == l) cleaned ((i, d.label) ∷ [])) (ground arith)
  ]
]

abbrev pub is_row : Option Certificate → Bool
is_row none = false
is_row (some c) = true

is_row-unassigned : (l : String) (o : Option Certificate) → is_row (unassigned l o) ≡ is_row o
is_row-unassigned l none = refl
is_row-unassigned l (some c) = refl

remove_one-cleaned :
    (p : Plugins) (d : Destination) (i j : ℕ) (l : String) (db : Certificates.Db)
    → was_cleaned j l (remove_one p d i db).cleaned ≡ (
        was_cleaned j l db.cleaned
        || (i == j
            && d.label == l
            && is_row (find certificate_id i db.certificates)
            && cleans p i (reference d)))
unfolding remove_one remove_destination_association
remove_one-cleaned p d i j l db = elim (Option-cases (find certificate_id i db.certificates)) [
  | inl n ↦ rw (n, remove_one) (ground arith)
  | inr (c, f) ↦
      rw (f, remove_one, find-key certificate_id i db.certificates f)
        (was_cleaned-remove p i j (reference d) l db.cleaned ∙ ground arith)
]

remove_all-cleaned :
    (p : Plugins) (d : Destination) (j : ℕ) (l : String) (ids : List ℕ) (db : Certificates.Db)
    → was_cleaned j l (remove_all p d ids db).cleaned ≡ (
        was_cleaned j l db.cleaned
        || (contains j ids
            && d.label == l
            && is_row (find certificate_id j db.certificates)
            && cleans p j (reference d)))
unfolding remove_all contains
remove_all-cleaned p d j l [] db = ground arith
remove_all-cleaned p d j l (i ∷ ids) db =
    remove_all-cleaned p d j l ids (remove_one p d i db)
    ∙ rw (remove_one-cleaned p d i j l db, remove_one-find p d i j db)
        (elim (Bool-cases (i == j)) [
          | inr e ↦ rw e (ground arith)
          | inl e ↦
              let same = (nat_beq_iff i j).0 e in
              let rows = ap (λ n. is_row (find certificate_id n db.certificates)) same in
              let plugin = ap (λ n. cleans p n (reference d)) same in
              rw
                (e, rows, plugin, is_row-unassigned d.label (find certificate_id j db.certificates))
                (ground arith)
        ])

passes-is_row :
    (t : Certificate → Bool) (o : Option Certificate) → (passes t o && is_row o) ≡ passes t o
passes-is_row t none = refl
passes-is_row t (some c) = ground arith

-- Whether a row that was found has the destination of that label and is valid, that is not revoked,
-- not at its end and not replaced.
abbrev pub has_valid : ℕ → String → List Certificate → Option Certificate → Bool
has_valid now l rows o = is_assigned l o && passes (is_valid now rows) o

-- Deleting a destination takes it off every certificate and takes no other destination off any; its
-- plugin has then cleaned, besides what was cleaned before, exactly those of the certificates that had
-- the destination and were valid, where it can clean and does not raise.
pub delete-is_assigned :
    (w : Site) (i j : ℕ) (d : Destination) (k : String) (db : Db)
    → get i db ≡ some d
    → distinct (map certificate_id db.certificates.certificates) ≡ true
    → (is_assigned k (find certificate_id j (delete w i db).certificates.certificates) ≡ (
        is_assigned k (find certificate_id j db.certificates.certificates) && not (d.label == k)))
      × (was_cleaned j k (delete w i db).certificates.cleaned ≡ (
          was_cleaned j k db.certificates.cleaned
          || (has_valid w.now d.label db.certificates.certificates
                (find certificate_id j db.certificates.certificates)
              && d.label == k
              && cleans w.plugins j (reference d))))
unfolding delete get_all_valid_certificates_with_destination
delete-is_assigned w i j d k db f h =
    rw (f, delete)
      (
        ap (is_assigned k) (find-drop_associations d j _)
            ∙ ground (
              arith,
              remove_all-find w.plugins d j ids db.certificates
                  (distinct-select certificate_id test rows h),
              is_assigned-unassigned d.label k (find certificate_id j rows),
              is_assigned-unassigned d.label k (unassigned d.label (find certificate_id j rows)),
            ),
        remove_all-cleaned w.plugins d j k ids db.certificates
            ∙ ground (
              arith,
              contains-selected certificate_id test j rows h,
              passes-is_row test (find certificate_id j rows),
              passes_both d.label (is_valid w.now rows) (find certificate_id j rows),
            ),
      )
  where
    rows : List Certificate
    rows = db.certificates.certificates

    test : Certificate → Bool
    test c = has_label d.label c.destinations && is_valid w.now rows c

    ids : List ℕ
    ids = map certificate_id (select test rows)
