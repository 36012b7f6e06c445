-- ===== src/Rotation/Settles.antt =====
-- Runs of the task `certificate_rotate`, one after the other.
use lemur.Prelude.{
  ℕ, zero, suc, ◌+◌, ◌≤◌, ◌<◌, Bool, true, false, ◌≡◌, refl, ap, ◌∙◌, Option, none, some, List, [],
  ◌∷◌, ◌==◌, nat_eq, nat_beq_iff, arith, Bool-cases, Option-cases, inl, inr, select, contains, map,
}
use lemur.Prelude.Table.{find, first, modify, distinct, passes}
use lemur.Rotation.{
  Certificate, Endpoint, Db, Site, certificate_id, endpoint_id, validate_certificate,
  validate_endpoint, rotate_certificate, request_rotation, is_replaced, successor, awaits_rotation,
  get_all_pending_rotation, rotate_to_successor, rotate_to_successors, rotate_found, rotate,
}
use lemur.Rotation.Regional.{certificate_rotate}
use lemur.Rotation.Advance.{advanced, rotate_advances}

unfoldable pub runs : ℕ → Site → (notify : Bool) → Db → Db
runs zero w notify db = db
runs (suc n) w notify db = runs n w notify (certificate_rotate w none notify db).1

map-modify :
    (i : ℕ) (change : Endpoint → Endpoint) (es : List Endpoint)
    → ((e : Endpoint) → endpoint_id (change e) ≡ endpoint_id e)
    → map endpoint_id (modify endpoint_id i change es) ≡ map endpoint_id es
unfolding modify
map-modify i change [] h = refl
map-modify i change (e ∷ es) h = ground (arith, h e, map-modify i change es h)

-- What no rotation changes: the numbers of the endpoints, and the certificates.
abbrev Alike : Db → Db → Type 0
Alike db db' =
    (map endpoint_id db'.endpoints ≡ map endpoint_id db.endpoints)
    × (db'.certificates ≡ db.certificates)

Alike-request :
    (w : Site) (message commit : Bool) (i c : ℕ) (db : Db)
    → Alike db (request_rotation w message commit i c db)
unfolding request_rotation rotate_certificate
Alike-request w message commit i c db =
    ground (arith, map-modify i (λ e. record e { certificate = c }) db.endpoints (λ e. refl))

Alike-successor :
    (w : Site) (message : Bool) (i : ℕ) (db : Db)
    → Alike db (rotate_to_successor w message true i db)
unfolding rotate_to_successor
Alike-successor w message i db = elim (Option-cases (find endpoint_id i db.endpoints)) [
  | inl n ↦ rw (n, rotate_to_successor) (refl, refl)
  | inr (e, f) ↦ rw (f, rotate_to_successor) (Alike-request w message true i _ db)
]

Alike-successors :
    (w : Site) (message : Bool) (ids : List ℕ) (db : Db)
    → Alike db (rotate_to_successors w message true ids db)
unfolding rotate_to_successors
Alike-successors w message [] db = (refl, refl)
Alike-successors w message (i ∷ ids) db = ground (
  arith,
  Alike-successor w message i db,
  Alike-successors w message ids (rotate_to_successor w message true i db),
)

Alike-certificate_rotate :
    (w : Site) (notify : Bool) (db : Db) → Alike db (certificate_rotate w none notify db).1
unfolding certificate_rotate rotate rotate_found validate_certificate validate_endpoint
Alike-certificate_rotate w notify db = Alike-successors w notify (get_all_pending_rotation db) db

unfoldable pub replaced_at : List Certificate → ℕ → Bool
replaced_at rows i = elim (find certificate_id i rows) [ none ↦ false | some c ↦ is_replaced c ]

-- Where the first replacements lead after so many steps.
steps : ℕ → List Certificate → ℕ → ℕ
steps zero rows i = i
steps (suc n) rows i = steps n rows (successor rows i)

moved : ℕ → List Certificate → Option Endpoint → Option Endpoint
moved n rows none = none
moved n rows (some e) = some (record e { certificate = steps n rows e.certificate })

moved-advanced :
    (n : ℕ) (rows : List Certificate) (o : Option Endpoint)
    → moved n rows (advanced rows o) ≡ moved (suc n) rows o
unfolding moved steps
moved-advanced n rows none = refl
moved-advanced n rows (some e) = refl

moved-zero : (rows : List Certificate) (o : Option Endpoint) → o ≡ moved 0 rows o
unfolding moved steps
moved-zero rows none = refl
moved-zero rows (some e) = refl

module _ (w : Site) (deploys : (i c : ℕ) → w.update_endpoint i c ≡ true) (notify : Bool) where
  find-runs :
      (n j : ℕ) (db : Db)
      → distinct (map endpoint_id db.endpoints) ≡ true
      → (find endpoint_id j (runs n w notify db).endpoints
          ≡ moved n db.certificates (find endpoint_id j db.endpoints))
        × Alike db (runs n w notify db)
  unfolding runs
  find-runs zero j db h = (moved-zero db.certificates _, (refl, refl))
  find-runs (suc n) j db h =
      let db' = (certificate_rotate w none notify db).1 in
      let alike : Alike db db' = Alike-certificate_rotate w notify db in
      let (found, later) = find-runs n j db' (rw alike.0 h) in
      (
        found
            ∙ (ap (λ rows. moved n rows (find endpoint_id j db'.endpoints)) alike.1
                ∙ (ap (moved n db.certificates) (rotate_advances w notify db j deploys h)
                    ∙ moved-advanced n db.certificates (find endpoint_id j db.endpoints))),
        (later.0 ∙ alike.0, later.1 ∙ alike.1),
      )

successor_settled :
    (rows : List Certificate) (i : ℕ) → replaced_at rows i ≡ false → successor rows i ≡ i
unfolding replaced_at successor
successor_settled rows i h = ground arith

steps_settled :
    (n : ℕ) (rows : List Certificate) (i : ℕ) → replaced_at rows i ≡ false → steps n rows i ≡ i
unfolding steps
steps_settled zero rows i h = refl
steps_settled (suc n) rows i h = rw (successor_settled rows i h) (steps_settled n rows i h)

steps_grow :
    (n : ℕ) (rows : List Certificate) (i : ℕ)
    → ((k : ℕ) → replaced_at rows k ≡ true → k < successor rows k)
    → replaced_at rows (steps n rows i) ≡ true
    → i + n ≤ steps n rows i
unfolding steps
steps_grow zero rows i forward h = omega arith
steps_grow (suc n) rows i forward h = elim (Bool-cases (replaced_at rows i)) [
  | inl e ↦ omega (arith, steps_grow n rows (successor rows i) forward h, forward i e)
  | inr e ↦ absurd (settled e)
]
  where
    settled : replaced_at rows i ≡ false → ⊥
    settled e = ground (
      arith,
      e,
      h,
      ap (replaced_at rows) (steps_settled n rows i e),
      ap (λ k. replaced_at rows (steps n rows k)) (successor_settled rows i e),
    )

find_missing :
    (j : ℕ) (es : List Endpoint)
    → contains j (map endpoint_id es) ≡ false
    → find endpoint_id j es ≡ none
unfolding contains find first
find_missing j [] h = refl
find_missing j (e ∷ es) h = ground (arith, find_missing j es)

select_none :
    (p : Endpoint → Bool) (es : List Endpoint)
    → distinct (map endpoint_id es) ≡ true
    → ((j : ℕ) → passes p (find endpoint_id j es) ≡ false)
    → select p es ≡ []
unfolding select distinct find first
select_none p [] h none' = refl
select_none p (e ∷ es) h none' =
    ground (arith, none' e.id, nat_beq_iff e.id e.id, select_none p es later rest)
  where
    later : distinct (map endpoint_id es) ≡ true
    later = ground arith

    gone : (j : ℕ) → (e.id == j) ≡ true → contains j (map endpoint_id es) ≡ false
    gone j y =
        ground (arith, ap (λ n. contains n (map endpoint_id es)) ((nat_beq_iff e.id j).0 y), h)

    rest : (j : ℕ) → passes p (find endpoint_id j es) ≡ false
    rest j = elim (Bool-cases (e.id == j)) [
      | inr n ↦ ground (arith, none' j, n)
      | inl y ↦ ground (arith, find_missing j es, gone j y)
    ]

awaits_moved :
    (n bound : ℕ) (rows : List Certificate) (o : Option Endpoint)
    → ((k : ℕ) → replaced_at rows k ≡ true → k < successor rows k)
    → ((k : ℕ) → replaced_at rows k ≡ true → k < bound)
    → bound ≤ n
    → passes (awaits_rotation rows) (moved n rows o) ≡ false
unfolding moved awaits_rotation replaced_at
awaits_moved n bound rows none forward below enough = refl
awaits_moved n bound rows (some e) forward below enough =
    elim (Bool-cases (replaced_at rows (steps n rows e.certificate))) [
      | inr r ↦ same ∙ r
      | inl r ↦ absurd (
          omega (
            arith,
            below (steps n rows e.certificate) r,
            steps_grow n rows e.certificate forward r,
          ))
    ]
  where
    same :
        awaits_rotation rows (record e { certificate = steps n rows e.certificate })
        ≡ replaced_at rows (steps n rows e.certificate)
    same = refl

-- Where the first replacement of each replaced certificate has a larger number than it, and every
-- replaced certificate a number below a bound, as many runs of the task as the bound, whose
-- deployments all succeed, leave no endpoint that awaits rotation.
pub rotation_settles :
    (w : Site) (notify : Bool) (bound n : ℕ) (db : Db)
    → ((i c : ℕ) → w.update_endpoint i c ≡ true)
    → distinct (map endpoint_id db.endpoints) ≡ true
    → ((k : ℕ) → replaced_at db.certificates k ≡ true → k < successor db.certificates k)
    → ((k : ℕ) → replaced_at db.certificates k ≡ true → k < bound)
    → bound ≤ n
    → get_all_pending_rotation (runs n w notify db) ≡ []
unfolding get_all_pending_rotation
rotation_settles w notify bound n db deploys h forward below enough = ap (map endpoint_id) (
    select_none _ (runs n w notify db).endpoints (rw (find-runs w deploys notify n 0 db h).1.0 h)
      settled)
  where
    settled :
        (j : ℕ)
        → passes
            (awaits_rotation (runs n w notify db).certificates)
            (find endpoint_id j (runs n w notify db).endpoints)
          ≡ false
    settled j =
        let (found, alike) = find-runs w deploys notify n j db h in
        rw (alike.1, found) (awaits_moved n bound db.certificates _ forward below enough)
