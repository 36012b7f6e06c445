-- ===== src/Sources/Clean/Rows.antt =====
-- What a run of the cleaning does to each certificate, lemur/sources/cli.py.
use lemur.Prelude.{
  ℕ, String, ◌≡◌, refl, sym, ap, ◌∙◌, Bool, true, false, ◌&&◌, Option, none, some, List, [], ◌∷◌,
  ◌==◌, nat_eq, string_eq, if◌then◌else◌, arith, Option-cases, Bool-cases, inl, inr, select,
  contains, map, nat_beq_iff,
}
use lemur.Prelude.Table.{
  find, modify, find-modify, find-key, distinct, distinct-select, contains-selected, passes,
  same_contains,
}
use lemur.Sources.Clean.{
  Certificate, Site, Db, certificate_id, is_unused, Limit, get_all_pending_cleaning, without,
  execute_clean, clean_all, clean_source, clean_sources, clean, expired, expiring_in_days,
  issued_since_days, clean_unused_and_expiring_within_days, clean_unused_and_issued_since_days,
}

-- The rule for one certificate and one source: unused, within the limit, and cleaned by the plugin.
unfoldable pub clean_row :
    Limit → Site → (commit : Bool) → (source : String) → Certificate → Certificate
clean_row limit w commit label c =
    if commit && w.has_clean label && w.clean label c.id && is_unused label c && limit w c
    then without label c
    else c

unfoldable pub clean_row_of :
    Limit → Site → (commit : Bool) → List String → Certificate → Certificate
clean_row_of limit w commit [] c = c
clean_row_of limit w commit (label ∷ sources) c =
    clean_row_of limit w commit sources (clean_row limit w commit label c)

abbrev pub on_row : (Certificate → Certificate) → Option Certificate → Option Certificate
on_row f none = none
on_row f (some c) = some (f c)

module _ (w : Site) (label : String) where
  find-execute_clean :
      (c : Certificate) (db : Db) (j : ℕ)
      → find certificate_id j (execute_clean w label c db).certificates
        ≡ on_row
            (λ r. if c.id == j && w.clean label c.id then without label r else r)
            (find certificate_id j db.certificates)
  unfolding execute_clean without
  find-execute_clean c db j =
      let changed = find-modify certificate_id c.id j (without label) db.certificates (λ r. refl) in
      elim (Option-cases (find certificate_id j db.certificates)) [
        | inl e ↦ elim (Bool-cases (w.clean label c.id)) [
          | inl k ↦ rw (k, changed, e) (ground arith)
          | inr k ↦ rw (k, e) refl
        ]
        | inr (r, e) ↦ elim (Bool-cases (w.clean label c.id)) [
          | inl k ↦ rw (k, changed, e) (ground arith)
          | inr k ↦ rw (k, e) (ground arith)
        ]
      ]

  abbrev unlinked : List Certificate → ℕ → Certificate → Certificate
  unlinked cs j r =
      if contains j (map certificate_id cs) && w.clean label j then without label r else r

  find-clean_all :
      (cs : List Certificate) (db : Db) (j : ℕ)
      → distinct (map certificate_id cs) ≡ true
      → find certificate_id j (clean_all w label cs true db).certificates
        ≡ on_row (unlinked cs j) (find certificate_id j db.certificates)
  unfolding clean_all distinct contains
  find-clean_all [] db j d = elim (Option-cases (find certificate_id j db.certificates)) [
    | inl e ↦ rw e refl
    | inr (r, e) ↦ rw e refl
  ]
  find-clean_all (c ∷ cs) db j d =
      let ih = find-clean_all cs (execute_clean w label c db) j (ground (arith, d)) in
      let first_gone : contains c.id (map certificate_id cs) ≡ false = ground (arith, d) in
      let one = find-execute_clean c db j in
      ih
      ∙ rw one (elim (Option-cases (find certificate_id j db.certificates)) [
        | inl e ↦ rw e refl
        | inr (r, e) ↦ elim (Bool-cases (c.id == j)) [
          | inl k ↦
              let same = (nat_beq_iff c.id j).0 k in
              let gone = sym (same_contains c.id j (map certificate_id cs) same) ∙ first_gone in
              let plugin = ap (λ i. w.clean label i) same in rw (e, k, gone, plugin) refl
          | inr k ↦ rw (e, k) refl
        ]
      ])

  clean_all-dry : (cs : List Certificate) (db : Db) → clean_all w label cs false db ≡ db
  unfolding clean_all
  clean_all-dry [] db = refl
  clean_all-dry (c ∷ cs) db = clean_all-dry cs db

map-modify :
    (i : ℕ) (label : String) (rows : List Certificate)
    → map certificate_id (modify certificate_id i (without label) rows) ≡ map certificate_id rows
unfolding modify without
map-modify i label [] = refl
map-modify i label (r ∷ rows) = ground (arith, map-modify i label rows)

-- The numbers of the rows.
abbrev pub ids : Db → List ℕ
ids db = map certificate_id db.certificates

ids-clean_all :
    (w : Site) (label : String) (cs : List Certificate) (commit : Bool) (db : Db)
    → ids (clean_all w label cs commit db) ≡ ids db
unfolding clean_all execute_clean
ids-clean_all w label [] commit db = refl
ids-clean_all w label (c ∷ cs) false db = ids-clean_all w label cs false db
ids-clean_all w label (c ∷ cs) true db = elim (Bool-cases (w.clean label c.id)) [
  | inl e ↦
      ids-clean_all w label cs true (execute_clean w label c db)
      ∙ rw (execute_clean, e) (map-modify c.id label db.certificates)
  | inr e ↦ ids-clean_all w label cs true (execute_clean w label c db) ∙ rw (execute_clean, e) refl
]

module _ (limit : Limit) (w : Site) (commit : Bool) where
  find-clean_source :
      (label : String) (db : Db) (j : ℕ)
      → distinct (ids db) ≡ true
      → find certificate_id j (clean_source limit w commit label db).certificates
        ≡ on_row (clean_row limit w commit label) (find certificate_id j db.certificates)
  unfolding clean_source clean_row get_all_pending_cleaning
  find-clean_source label db j d =
      let test : Certificate → Bool = λ c. is_unused label c && limit w c in
      let all_cleaned =
        find-clean_all w label (select test db.certificates) db j
          (distinct-select certificate_id test db.certificates d) in
      let chosen = contains-selected certificate_id test j db.certificates d in
      elim (Option-cases (find certificate_id j db.certificates)) [
        | inl e ↦ elim (Bool-cases (w.has_clean label)) [
          | inl k ↦ elim (Bool-cases commit) [
            | inl b ↦ rw (k, b, all_cleaned, e) refl
            | inr b ↦ rw (k, b, clean_all-dry w label (select test db.certificates) db, e) refl
          ]
          | inr k ↦ rw (k, e) refl
        ]
        | inr (r, e) ↦
            let key = find-key certificate_id j db.certificates e in
            let plugin = ap (λ i. w.clean label i) key in
            let picked = chosen ∙ ap (passes test) e in
            elim (Bool-cases (w.has_clean label)) [
              | inl k ↦ elim (Bool-cases commit) [
                | inl b ↦ rw (k, b, all_cleaned, e, picked, plugin) (ground arith)
                | inr b ↦ rw (k, b, clean_all-dry w label (select test db.certificates) db, e) refl
              ]
              | inr k ↦ rw (k, e) (ground arith)
            ]
      ]

  ids-clean_source :
      (label : String) (db : Db) → ids (clean_source limit w commit label db) ≡ ids db
  unfolding clean_source
  ids-clean_source label db = elim (Bool-cases (w.has_clean label)) [
    | inl k ↦ rw k (ids-clean_all w label _ commit db)
    | inr k ↦ rw k refl
  ]

  find-clean_sources :
      (sources : List String) (db : Db) (j : ℕ)
      → distinct (ids db) ≡ true
      → find certificate_id j (clean_sources limit w sources commit db).certificates
        ≡ on_row (clean_row_of limit w commit sources) (find certificate_id j db.certificates)
  unfolding clean_sources clean_row_of
  find-clean_sources [] db j d = elim (Option-cases (find certificate_id j db.certificates)) [
    | inl e ↦ rw e refl
    | inr (r, e) ↦ rw e refl
  ]
  find-clean_sources (label ∷ sources) db j d =
      let next = clean_source limit w commit label db in
      find-clean_sources sources next j (ap distinct (ids-clean_source label db) ∙ d)
      ∙ rw (find-clean_source label db j d)
          (elim (Option-cases (find certificate_id j db.certificates)) [
            | inl e ↦ rw e refl
            | inr (r, e) ↦ rw e refl
          ])

-- Where the numbers of the certificates are distinct, each of the three commands does to each row what
-- a rule for the row alone says: for one source after the other, a row that has the source, has no
-- endpoint, is within the limit of the command and is cleaned by the plugin loses the source and those
-- destinations of its label that the loop over them comes to, where the changes are committed and the
-- plugin can clean; all else stays.
pub clean_by_row :
    (w : Site) (sources : List String) (days : ℕ) (commit : Bool) (db : Db) (j : ℕ)
    → distinct (ids db) ≡ true
    → (find certificate_id j (clean w sources commit db).certificates
        ≡ on_row (clean_row_of expired w commit sources) (find certificate_id j db.certificates))
      × (find certificate_id j
            (clean_unused_and_expiring_within_days w sources days commit db).certificates
          ≡ on_row
              (clean_row_of (expiring_in_days days) w commit sources)
              (find certificate_id j db.certificates))
      × (find certificate_id j
            (clean_unused_and_issued_since_days w sources days commit db).certificates
          ≡ on_row
              (clean_row_of (issued_since_days days) w commit sources)
              (find certificate_id j db.certificates))
unfolding clean clean_unused_and_expiring_within_days clean_unused_and_issued_since_days
clean_by_row w sources days commit db j d = (
  find-clean_sources expired w commit sources db j d,
  find-clean_sources (expiring_in_days days) w commit sources db j d,
  find-clean_sources (issued_since_days days) w commit sources db j d,
)
