-- ===== src/Rotation/Renewal.antt =====
-- Reissue and rotation together: where an endpoint of an expiring certificate ends.
use lemur.Prelude.{
  ℕ, ◌≤◌, Bool, true, false, ◌&&◌, ◌≡◌, ◌⊎◌, refl, sym, subst, ap, ◌∙◌, all, ltb, Option, none,
  some, List, [], ◌∷◌, ◌==◌, nat_eq, nat_beq_iff, if◌then◌else◌, arith, Bool-cases, Option-cases,
  inl, inr, select, contains, map,
}
use lemur.Prelude.Table.{
  find, first, first-append, find-modify, find-key, modify, distinct, distinct-select,
  contains-selected, passes,
}
use lemur.Rotation.{
  Certificate, Endpoint, Db, Site, Issued, raised, pending, minted, certificate_id, endpoint_id,
  validate_certificate, successor, is_replaced,
}
use lemur.Rotation.Regional.{certificate_rotate}
use lemur.Rotation.Advance.{rotate_advances}
use lemur.Rotation.Reissue.{
  awaits_reissue, get_all_pending_reissue, replaced_by, with_new, reissue_certificate,
  reissue_answer, request_reissue_row, request_reissue, reissue_all, reissue_named, reissue,
  certificate_reissue,
}

-- What a reissue leaves in the tables, whatever was issued.
abbrev Same : Db → Db → Type 0
Same db db' =
    (db'.certificates ≡ db.certificates) × (db'.endpoints ≡ db.endpoints) × (db'.next ≡ db.next)

Same-reissue_answer :
    (w : Site) (notify : Bool) (c : Certificate) (before : Db) (u : Issued × Db)
    → Same u.1 (reissue_answer w notify c before u)
Same-reissue_answer w notify c before (raised, db) = (refl, refl, refl)
Same-reissue_answer w notify c before (pending, db) = (refl, refl, refl)
Same-reissue_answer w notify c before (minted new, db) = (refl, refl, refl)

find-with_new :
    (i k : ℕ) (new c : Certificate) (db : Db)
    → find certificate_id i db.certificates ≡ some c
    → find certificate_id i (with_new k new db).certificates
      ≡ some (if k == i then replaced_by db.next c else c)
unfolding find
find-with_new i k new c db h = ground (
  arith,
  first-append (λ (r : Certificate). r.id == i)
      (modify certificate_id k (replaced_by db.next) db.certificates)
      (record new { id = db.next; replaced = [] } ∷ []),
  find-modify certificate_id k i (replaced_by db.next) db.certificates (λ r. refl),
)

-- Whether no row has a number that is still to be given.
abbrev Fresh : Db → Type 0
Fresh db = (n : ℕ) → db.next ≤ n → find certificate_id n db.certificates ≡ none

-- What the issuer issued, as a row.
abbrev pub as_issued : ℕ → Certificate → Certificate
as_issued n new = record new { id = n; replaced = [] }

find-with_new-next :
    (k n : ℕ) (new : Certificate) (db : Db)
    → find certificate_id n db.certificates ≡ none
    → find certificate_id n (with_new k new db).certificates
      ≡ (if db.next == n then some (as_issued db.next new) else none)
unfolding find first
find-with_new-next k n new db h = ground (
  arith,
  first-append (λ (r : Certificate). r.id == n)
      (modify certificate_id k (replaced_by db.next) db.certificates) (as_issued db.next new ∷ []),
  find-modify certificate_id k n (replaced_by db.next) db.certificates (λ r. refl),
)

with_new-Fresh : (k : ℕ) (new : Certificate) (db : Db) → Fresh db → Fresh (with_new k new db)
with_new-Fresh k new db h n more =
    find-with_new-next k n new db (h n (omega (arith, more)))
    ∙ ground (arith, more, nat_beq_iff db.next n)

Fresh-Same : (db db' : Db) → Same db db' → Fresh db → Fresh db'
Fresh-Same db db' s h n more =
    ap (λ rows. find certificate_id n rows) s.0 ∙ h n (omega (arith, more, s.2))

module _ (w : Site) (notify : Bool) where
  reissued_cases :
      (c : Certificate) (db : Db) (x : Issued)
      → w.issue c.id ≡ x
      → Same db (reissue_certificate w c.id db).1
        ⊎ ((new : Certificate) × Same (with_new c.id new db) (reissue_certificate w c.id db).1)
  unfolding reissue_certificate
  reissued_cases c db raised e = inl (rw e (refl, refl, refl))
  reissued_cases c db pending e = inl (rw e (refl, refl, refl))
  reissued_cases c db (minted new) e = inr (new, rw e (refl, refl, refl))

  -- The tables are left, or the certificate has got a successor.
  row_cases :
      (c : Certificate) (db : Db)
      → Same db (request_reissue_row w notify true c db)
        ⊎ ((new : Certificate) × Same
              (with_new c.id new db)
              (request_reissue_row w notify true c db))
  unfolding request_reissue_row
  row_cases c db = elim (Bool-cases (w.serialises c.id)) [
    | inr s ↦ inl (rw s (refl, refl, refl))
    | inl s ↦ rw s (answered (reissued_cases c db (w.issue c.id) refl))
  ]
    where
      answer :
          Same
            (reissue_certificate w c.id db).1
            (reissue_answer w (notify && c.notify) c db (reissue_certificate w c.id db))
      answer = Same-reissue_answer w (notify && c.notify) c db (reissue_certificate w c.id db)

      answered :
          Same db (reissue_certificate w c.id db).1
            ⊎ ((new : Certificate) × Same (with_new c.id new db) (reissue_certificate w c.id db).1)
          → Same db (reissue_answer w (notify && c.notify) c db (reissue_certificate w c.id db))
            ⊎ ((new : Certificate) × Same
                  (with_new c.id new db)
                  (reissue_answer w (notify && c.notify) c db (reissue_certificate w c.id db)))
      answered (inl h) = inl (answer.0 ∙ h.0, answer.1 ∙ h.1, answer.2 ∙ h.2)
      answered (inr (new, h)) = inr (new, (answer.0 ∙ h.0, answer.1 ∙ h.1, answer.2 ∙ h.2))

  request_reissue-elsewhere :
      (i k : ℕ) (c : Certificate) (db : Db)
      → find certificate_id i db.certificates ≡ some c
      → (k == i) ≡ false
      → find certificate_id i (request_reissue w notify true k db).certificates ≡ some c
  unfolding request_reissue
  request_reissue-elsewhere i k c db h apart =
      elim (Option-cases (find certificate_id k db.certificates)) [
        | inl n ↦ rw (n, request_reissue) h
        | inr (d, f) ↦
            rw (f, request_reissue)
              (elim (row_cases d db) [
                | inl s ↦ rw s.0 h
                | inr (new, s) ↦ rw s.0 (
                    find-with_new i d.id new c db h
                    ∙ ground (arith, apart, find-key certificate_id k db.certificates f))
              ])
      ]

  request_reissue-grows :
      (k : ℕ) (db : Db)
      → (db.next ≤ (request_reissue w notify true k db).next)
        × ((request_reissue w notify true k db).endpoints ≡ db.endpoints)
  unfolding request_reissue
  request_reissue-grows k db = elim (Option-cases (find certificate_id k db.certificates)) [
    | inl n ↦ rw (n, request_reissue) (omega arith, refl)
    | inr (d, f) ↦
        rw (f, request_reissue)
          (elim (row_cases d db) [
            | inl s ↦ (omega (arith, s.2), s.1)
            | inr (new, s) ↦ (omega (arith, s.2), s.1)
          ])
  ]

  request_reissue-minted :
      (c new : Certificate) (db : Db)
      → find certificate_id c.id db.certificates ≡ some c
      → w.serialises c.id ≡ true
      → w.issue c.id ≡ minted new
      → find certificate_id c.id (request_reissue w notify true c.id db).certificates
        ≡ some (replaced_by db.next c)
  unfolding request_reissue request_reissue_row reissue_certificate
  request_reissue-minted c new db h s m =
      rw (h, s, m, request_reissue, request_reissue_row, reissue_certificate)
        (find-with_new c.id c.id new c db h ∙ ground (arith, nat_beq_iff c.id c.id))

  request_reissue-Fresh : (k : ℕ) (db : Db) → Fresh db → Fresh (request_reissue w notify true k db)
  unfolding request_reissue
  request_reissue-Fresh k db h = elim (Option-cases (find certificate_id k db.certificates)) [
    | inl n ↦ rw (n, request_reissue) h
    | inr (d, f) ↦
        rw (f, request_reissue)
          (elim (row_cases d db) [
            | inl s ↦ Fresh-Same db (request_reissue_row w notify true d db) s h
            | inr (new, s) ↦
                Fresh-Same (with_new d.id new db) (request_reissue_row w notify true d db) s
                  (with_new-Fresh d.id new db h)
          ])
  ]

  request_reissue-issued :
      (c new : Certificate) (db : Db)
      → find certificate_id c.id db.certificates ≡ some c
      → w.serialises c.id ≡ true
      → w.issue c.id ≡ minted new
      → Fresh db
      → find certificate_id db.next (request_reissue w notify true c.id db).certificates
        ≡ some (as_issued db.next new)
  unfolding request_reissue request_reissue_row reissue_certificate
  request_reissue-issued c new db h s m fresh =
      rw (h, s, m, request_reissue, request_reissue_row, reissue_certificate)
        (find-with_new-next c.id db.next new db (fresh db.next (omega arith))
          ∙ ground (arith, nat_beq_iff db.next db.next))

  reissue_all-grows :
      (ids : List ℕ) (db : Db)
      → (db.next ≤ (reissue_all w notify true ids db).next)
        × ((reissue_all w notify true ids db).endpoints ≡ db.endpoints)
  unfolding reissue_all
  reissue_all-grows [] db = (omega arith, refl)
  reissue_all-grows (k ∷ ids) db =
      let (a, b) = request_reissue-grows k db in
      let (c, d) = reissue_all-grows ids (request_reissue w notify true k db) in
      (omega (arith, a, c), d ∙ b)

  reissue_all-elsewhere :
      (i : ℕ) (c : Certificate) (ids : List ℕ) (db : Db)
      → find certificate_id i db.certificates ≡ some c
      → contains i ids ≡ false
      → find certificate_id i (reissue_all w notify true ids db).certificates ≡ some c
  unfolding reissue_all contains
  reissue_all-elsewhere i c [] db h apart = h
  reissue_all-elsewhere i c (k ∷ ids) db h apart =
      reissue_all-elsewhere i c ids (request_reissue w notify true k db)
        (request_reissue-elsewhere i k c db h (ground arith)) (ground arith)

  reissue_all-minted :
      (c new : Certificate) (ids : List ℕ) (db : Db)
      → find certificate_id c.id db.certificates ≡ some c
      → w.serialises c.id ≡ true
      → w.issue c.id ≡ minted new
      → distinct ids ≡ true
      → contains c.id ids ≡ true
      → Fresh db
      → ((m : ℕ) → db.next ≤ m → contains m ids ≡ false)
      → (n : ℕ) × (db.next ≤ n)
        × (find certificate_id c.id (reissue_all w notify true ids db).certificates
            ≡ some (replaced_by n c))
        × (find certificate_id n (reissue_all w notify true ids db).certificates
            ≡ some (as_issued n new))
  unfolding reissue_all contains distinct
  reissue_all-minted c new [] db h s m d member fresh old = absurd (ground (arith, member))
  reissue_all-minted c new (k ∷ ids) db h s m d member fresh old = elim (Bool-cases (k == c.id)) [
    | inr apart ↦
        let grown = request_reissue-grows k db in
        let (n, more, found, issued) =
          reissue_all-minted c new ids (request_reissue w notify true k db)
            (request_reissue-elsewhere c.id k c db h apart) s m (ground arith) (ground arith)
            (request_reissue-Fresh k db fresh)
            (λ i later. unlisted i (omega (arith, later, grown.0))) in
        (n, omega (arith, more, grown), found, issued)
    | inl same ↦
        let e = (nat_beq_iff k c.id).0 same in
        (
          db.next,
          omega arith,
          reissue_all-elsewhere c.id (replaced_by db.next c) ids
              (request_reissue w notify true k db) (rw e (request_reissue-minted c new db h s m))
              (once e),
          reissue_all-elsewhere db.next (as_issued db.next new) ids
              (request_reissue w notify true k db)
              (rw e (request_reissue-issued c new db h s m fresh)) (unlisted db.next (omega arith)),
        )
  ]
    where
      unlisted : (i : ℕ) → db.next ≤ i → contains i ids ≡ false
      unlisted i later = ground (arith, old i later)

      once : k ≡ c.id → contains c.id ids ≡ false
      once e = ground (arith, ap (λ n. contains n ids) e)

abbrev pub certificate_at : Option Endpoint → ℕ
certificate_at none = 0
certificate_at (some e) = e.certificate

unreplaced :
    (policies : List ℕ) (now : ℕ) (c : Certificate)
    → awaits_reissue policies now c ≡ true
    → is_replaced c ≡ false
unfolding awaits_reissue
unreplaced policies now c h = ground arith

successor-replaced_by :
    (rows : List Certificate) (i n : ℕ) (c : Certificate)
    → find certificate_id i rows ≡ some (replaced_by n c)
    → is_replaced c ≡ false
    → successor rows i ≡ n
unfolding successor
successor-replaced_by rows i n c h u = ground arith

-- Whether the numbers of the rows are all below the next one.
abbrev pub all_below : Db → Bool
all_below db = all (λ (r : Certificate). ltb r.id db.next) db.certificates

Fresh-rows :
    (next n : ℕ) (rows : List Certificate)
    → next ≤ n
    → all (λ (r : Certificate). ltb r.id next) rows ≡ true
    → find certificate_id n rows ≡ none
unfolding find first all
Fresh-rows next n [] more h = refl
Fresh-rows next n (r ∷ rows) more h =
    let rest = Fresh-rows next n rows more (ground (arith, h)) in
    let other : (r.id == n) ≡ false = ground (arith, h, more, nat_beq_iff r.id n) in rw other rest

-- The tables after a run of the task of reissue.
abbrev pub reissued : Site → Bool → Db → Db
reissued w notify db = (certificate_reissue w notify db).1

-- The number of the certificate that an endpoint has after a run of the task of rotation behind it.
abbrev pub ends_at : Site → Bool → Db → ℕ → ℕ
ends_at w notify db j =
    certificate_at
      (find endpoint_id j (certificate_rotate w none notify (reissued w notify db)).1.endpoints)

-- Where all deployments succeed, the issuer issues a certificate at once for the certificate of an
-- endpoint that is due for reissue, and the sequence of the numbers is ahead of the table, a run of
-- the task of reissue and then one of the task of rotation leave the endpoint with the certificate
-- that was issued: its number was in no row before, and is in the row of the issued one after the
-- reissue.
pub renewed :
    (w : Site) (notify : Bool) (db : Db) (j : ℕ) (e : Endpoint) (c new : Certificate)
    → find endpoint_id j db.endpoints ≡ some e
    → find certificate_id e.certificate db.certificates ≡ some c
    → awaits_reissue w.policies w.now c ≡ true
    → w.serialises c.id ≡ true
    → w.issue c.id ≡ minted new
    → ((i k : ℕ) → w.update_endpoint i k ≡ true)
    → distinct (map certificate_id db.certificates) ≡ true
    → distinct (map endpoint_id db.endpoints) ≡ true
    → all_below db ≡ true
    → (find certificate_id (ends_at w notify db j) db.certificates ≡ none)
      × (find certificate_id (ends_at w notify db j) (reissued w notify db).certificates
          ≡ some (as_issued (ends_at w notify db j) new))
unfolding certificate_reissue reissue reissue_named validate_certificate get_all_pending_reissue
renewed w notify db j e c new f g due s m deploys dc de below =
    let (n, more, found, issued) =
      reissue_all-minted w notify c new ids db here s m
        (distinct-select certificate_id (awaits_reissue w.policies w.now) db.certificates dc) member
        fresh unlisted in
    let ends : ends_at w notify db j ≡ n =
      rw (rotate_advances w notify db' j deploys distinct', grown.1, f)
        (subst (λ k. successor db'.certificates k ≡ n) same
          (successor-replaced_by db'.certificates c.id n c found
            (unreplaced w.policies w.now c due))) in
    subst
      (λ k.
        (find certificate_id k db.certificates ≡ none)
        × (find certificate_id k db'.certificates ≡ some (as_issued k new)))
      (sym ends) (fresh n more, issued)
  where
    same : c.id ≡ e.certificate
    same = find-key certificate_id e.certificate db.certificates g

    ids : List ℕ
    ids = map certificate_id (select (awaits_reissue w.policies w.now) db.certificates)

    db' : Db
    db' = reissue_all w notify true ids db

    grown : (db.next ≤ db'.next) × (db'.endpoints ≡ db.endpoints)
    grown = reissue_all-grows w notify ids db

    here : find certificate_id c.id db.certificates ≡ some c
    here = ap (λ k. find certificate_id k db.certificates) same ∙ g

    listed :
        (k : ℕ)
        → contains k ids
          ≡ passes (awaits_reissue w.policies w.now) (find certificate_id k db.certificates)
    listed k =
        contains-selected certificate_id (awaits_reissue w.policies w.now) k db.certificates dc

    member : contains c.id ids ≡ true
    member = listed c.id ∙ (ap (passes (awaits_reissue w.policies w.now)) here ∙ due)

    fresh : Fresh db
    fresh n more = Fresh-rows db.next n db.certificates more below

    unlisted : (k : ℕ) → db.next ≤ k → contains k ids ≡ false
    unlisted k more = listed k ∙ ap (passes (awaits_reissue w.policies w.now)) (fresh k more)

    distinct' : distinct (map endpoint_id db'.endpoints) ≡ true
    distinct' = rw grown.1 de
