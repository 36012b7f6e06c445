-- ===== src/Rotation/Rehearsal.antt =====
-- Runs that are not to keep their changes, and the two readings of the rotation window.
use lemur.Prelude.{
  ℕ, ◌+◌, ◌*◌, Bool, false, not, ◌&&◌, any, contains, ltb, leb, ◌-◌, ◌/◌, ◌≡◌, refl, Option, none,
  some, List, [], ◌∷◌, nat_eq, string_eq, arith, Option-cases, inl, inr,
}
use lemur.Prelude.Result.{Result, ok, err}
use lemur.Prelude.Table.{find}
use lemur.Rotation.{
  Certificate, Endpoint, Db, Site, Names, Stop, endpoint_id, validate_certificate, request_rotation,
  rotate_to_successor, rotate_to_successors, rotate_to, rotate_found, attempt, rotate,
}
use lemur.Rotation.Reissue.{
  in_rotation_window, is_in_rotation_window, request_reissue_row, request_reissue, reissue_all,
  get_all_pending_reissue, reissue_named, reissue,
}

module _ (w : Site) (message : Bool) where
  request_rotation_dry : (i c : ℕ) (db : Db) → request_rotation w message false i c db ≡ db
  unfolding request_rotation
  request_rotation_dry i c db = refl

  rotate_to_successors_dry :
      (ids : List ℕ) (db : Db) → rotate_to_successors w message false ids db ≡ db
  unfolding rotate_to_successors rotate_to_successor
  rotate_to_successors_dry [] db = refl
  rotate_to_successors_dry (i ∷ ids) db = rw (step) (rotate_to_successors_dry ids db)
    where
      step : rotate_to_successor w message false i db ≡ db
      step = elim (Option-cases (find endpoint_id i db.endpoints)) [
        | inl n ↦ rw (n, rotate_to_successor) refl
        | inr (e, f) ↦ rw (f, rotate_to_successor) (request_rotation_dry i _ db)
      ]

  rotate_to_dry : (c : ℕ) (ids : List ℕ) (db : Db) → rotate_to w message false c ids db ≡ db
  unfolding rotate_to
  rotate_to_dry c [] db = refl
  rotate_to_dry c (i ∷ ids) db = rw (request_rotation_dry i c db) (rotate_to_dry c ids db)

  rotate_found_dry :
      (old new : Option Certificate) (e : Option Endpoint) (db : Db)
      → rotate_found w message false old new e db ≡ db
  unfolding rotate_found
  rotate_found_dry old (some new) (some e) db = request_rotation_dry e.id new.id db
  rotate_found_dry (some old) (some new) none db = rotate_to_dry new.id _ db
  rotate_found_dry none (some new) none db = rotate_to_successors_dry _ db
  rotate_found_dry old none e db = rotate_to_successors_dry _ db

attempt_dry :
    (old new : Result Stop (Option Certificate)) (endpoint : Result Stop (Option Endpoint))
    (run : Option Certificate → Option Certificate → Option Endpoint → Db) (db : Db)
    → ((o n : Option Certificate) (e : Option Endpoint) → run o n e ≡ db)
    → (attempt old new endpoint run db).1 ≡ db
attempt_dry (err s) new endpoint run db h = refl
attempt_dry (ok a) (err s) endpoint run db h = refl
attempt_dry (ok a) (ok b) (err s) run db h = refl
attempt_dry (ok a) (ok b) (ok c) run db h = h a b c

module _ (w : Site) (notify : Bool) where
  -- The two tables are left.
  abbrev Kept : Db → Db → Type 0
  Kept db db' = (db'.certificates ≡ db.certificates) × (db'.endpoints ≡ db.endpoints)

  request_reissue_dry : (i : ℕ) (db : Db) → Kept db (request_reissue w notify false i db)
  unfolding request_reissue request_reissue_row
  request_reissue_dry i db = ground arith

  reissue_all_dry : (ids : List ℕ) (db : Db) → Kept db (reissue_all w notify false ids db)
  unfolding reissue_all
  reissue_all_dry [] db = (refl, refl)
  reissue_all_dry (i ∷ ids) db =
      ground
        (arith, request_reissue_dry i db, reissue_all_dry ids (request_reissue w notify false i db))

  reissue_named_dry :
      (r : Result Stop (Option Certificate)) (db : Db)
      → Kept db (reissue_named w notify false r db).1
  unfolding reissue_named
  reissue_named_dry (err s) db = (refl, refl)
  reissue_named_dry (ok none) db = reissue_all_dry (get_all_pending_reissue w db) db
  reissue_named_dry (ok (some c)) db = request_reissue_dry c.id db

-- Without the option to commit, `rotate` changes nothing at all, whatever is named, and `reissue`
-- changes no certificate and no endpoint.
pub dry_runs :
    (w : Site) (names : Names) (message : Bool) (db : Db)
    → ((rotate w names message false db).1 ≡ db)
      × ((reissue w names.old_certificate message false db).1.certificates ≡ db.certificates)
      × ((reissue w names.old_certificate message false db).1.endpoints ≡ db.endpoints)
unfolding rotate reissue
dry_runs w names message db = (
  attempt_dry (validate_certificate names.old_certificate db)
      (validate_certificate names.new_certificate db) _ _ db
      (λ o n e. rotate_found_dry w message o n e db),
  kept.0,
  kept.1,
)
  where
    kept :
        Kept w message db
          (reissue_named w message false (validate_certificate names.old_certificate db) db).1
    kept = reissue_named_dry w message (validate_certificate names.old_certificate db) db

window_by_days :
    (now days : ℕ) (c : Certificate)
    → leb ((c.not_after - now) / 86400) days ≡ ltb c.not_after (now + (days + 1) * 86400)
window_by_days now days c = ground arith

-- The query for the certificates to reissue has in its window exactly those whose end is less than a
-- day further away than the days of some policy, whichever certificate that policy is for; a
-- certificate of a policy of the table is among them where the property of the object says so.
pub window_of_any_policy :
    (policies : List ℕ) (now : ℕ) (c : Certificate)
    → (in_rotation_window policies now c
        ≡ any (λ days. ltb c.not_after (now + (days + 1) * 86400)) policies)
      × ((contains c.policy_days policies
            && is_in_rotation_window now c
            && not (in_rotation_window policies now c))
          ≡ false)
unfolding in_rotation_window is_in_rotation_window any contains
window_of_any_policy [] now c = (refl, refl)
window_of_any_policy (days ∷ policies) now c =
    let (rest, own) = window_of_any_policy policies now c in
    (
      ground (arith, rest, window_by_days now days c),
      ground (arith, own, window_by_days now days c),
    )
