-- ===== src/Rotation/Advance.antt =====
-- A run of the task `certificate_rotate` whose deployments succeed.
use lemur.Prelude.{
  ℕ, Bool, true, false, ◌≡◌, refl, sym, ap, ◌∙◌, Option, none, some, List, [], ◌∷◌, ◌==◌, nat_eq,
  string_eq, nat_beq_iff, if◌then◌else◌, arith, Bool-cases, Option-cases, inl, inr, contains, map,
}
use lemur.Prelude.Table.{
  find, find-modify, distinct, passes, distinct-select, same_contains, contains-selected,
}
use lemur.Rotation.{
  Certificate, Endpoint, Db, Site, endpoint_id, validate_certificate, validate_endpoint,
  rotate_certificate, request_rotation, successor, awaits_rotation, get_all_pending_rotation,
  rotate_to_successor, rotate_to_successors, rotate_found, rotate,
}
use lemur.Rotation.Regional.{certificate_rotate}

-- The endpoint with the first replacement of its certificate in place of the certificate.
abbrev pub advance : List Certificate → Endpoint → Endpoint
advance rows e = record e { certificate = successor rows e.certificate }

abbrev pub advanced : List Certificate → Option Endpoint → Option Endpoint
advanced rows none = none
advanced rows (some e) = some (advance rows e)

abbrev placed : ℕ → Option Endpoint → Option Endpoint
placed c none = none
placed c (some e) = some (record e { certificate = c })

module _ (w : Site) (deploys : (i c : ℕ) → w.update_endpoint i c ≡ true) (message : Bool) where
  request_rotation-find :
      (i c j : ℕ) (db : Db)
      → find endpoint_id j (request_rotation w message true i c db).endpoints ≡ (
          if i == j
          then placed c (find endpoint_id j db.endpoints)
          else find endpoint_id j db.endpoints)
  unfolding request_rotation rotate_certificate
  request_rotation-find i c j db = ground (
    arith,
    deploys i c,
    find-modify endpoint_id i j (λ e. record e { certificate = c }) db.endpoints (λ r. refl),
  )

  rotate_to_successor-find :
      (i j : ℕ) (db : Db)
      → find endpoint_id j (rotate_to_successor w message true i db).endpoints ≡ (
          if i == j
          then advanced db.certificates (find endpoint_id j db.endpoints)
          else find endpoint_id j db.endpoints)
  unfolding rotate_to_successor request_rotation rotate_certificate
  rotate_to_successor-find i j db = elim (Option-cases (find endpoint_id i db.endpoints)) [
    | inl n ↦ rw (n, rotate_to_successor) (ground (arith, n, same, nat_beq_iff i j))
    | inr (e, f) ↦
        rw (f, rotate_to_successor)
          (ground (
            arith,
            f,
            same,
            nat_beq_iff i j,
            request_rotation-find i (successor db.certificates e.certificate) j db,
          ))
  ]
    where
      same : i ≡ j → find endpoint_id i db.endpoints ≡ find endpoint_id j db.endpoints
      same e = ap (λ n. find endpoint_id n db.endpoints) e

  rotate_to_successor-certificates :
      (i : ℕ) (db : Db) → (rotate_to_successor w message true i db).certificates ≡ db.certificates
  unfolding rotate_to_successor request_rotation rotate_certificate
  rotate_to_successor-certificates i db = ground arith

  rotate_to_successors-find :
      (ids : List ℕ) (j : ℕ) (db : Db)
      → distinct ids ≡ true
      → find endpoint_id j (rotate_to_successors w message true ids db).endpoints ≡ (
          if contains j ids
          then advanced db.certificates (find endpoint_id j db.endpoints)
          else find endpoint_id j db.endpoints)
  unfolding rotate_to_successors contains distinct
  rotate_to_successors-find [] j db h = refl
  rotate_to_successors-find (i ∷ ids) j db h = ground (
    arith,
    rotate_to_successors-find ids j (rotate_to_successor w message true i db),
    rotate_to_successor-find i j db,
    rotate_to_successor-certificates i db,
    same_contains i j ids,
    nat_beq_iff i j,
  )

-- An endpoint that does not await rotation is its own advance.
advance_settled :
    (rows : List Certificate) (e : Endpoint) → awaits_rotation rows e ≡ false → advance rows e ≡ e
unfolding awaits_rotation successor
advance_settled rows e h = ap (λ c. record e { certificate = c }) unmoved
  where
    unmoved : successor rows e.certificate ≡ e.certificate
    unmoved = ground arith

advanced_settled :
    (rows : List Certificate) (o : Option Endpoint)
    → passes (awaits_rotation rows) o ≡ false
    → advanced rows o ≡ o
advanced_settled rows none h = refl
advanced_settled rows (some e) h = ap some (advance_settled rows e h)

-- A run of the task for all regions, whose deployments all succeed, moves each endpoint to the first
-- replacement of its certificate, and leaves it where its certificate is not replaced; no endpoint is
-- lost or changed in any other way.
pub rotate_advances :
    (w : Site) (notify : Bool) (db : Db) (j : ℕ)
    → ((i c : ℕ) → w.update_endpoint i c ≡ true)
    → distinct (map endpoint_id db.endpoints) ≡ true
    → find endpoint_id j (certificate_rotate w none notify db).1.endpoints
      ≡ advanced db.certificates (find endpoint_id j db.endpoints)
unfolding certificate_rotate rotate rotate_found validate_certificate validate_endpoint
    get_all_pending_rotation
rotate_advances w notify db j deploys h =
    elim (Bool-cases (passes (awaits_rotation db.certificates) (find endpoint_id j db.endpoints))) [
      | inl e ↦ loop ∙ rw (member, e) refl
      | inr e ↦ loop ∙ rw (member, e) (sym (advanced_settled _ _ e))
    ]
  where
    loop :
        find endpoint_id j
          (rotate_to_successors w notify true (get_all_pending_rotation db) db).endpoints
        ≡ (if contains j (get_all_pending_rotation db)
            then advanced db.certificates (find endpoint_id j db.endpoints)
            else find endpoint_id j db.endpoints)
    loop =
        rotate_to_successors-find w deploys notify (get_all_pending_rotation db) j db
          (distinct-select endpoint_id (awaits_rotation db.certificates) db.endpoints h)

    member :
        contains j (get_all_pending_rotation db)
        ≡ passes (awaits_rotation db.certificates) (find endpoint_id j db.endpoints)
    member = contains-selected endpoint_id (awaits_rotation db.certificates) j db.endpoints h
