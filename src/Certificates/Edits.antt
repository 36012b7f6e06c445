-- ===== src/Certificates/Edits.antt =====
-- What an edit and a change of owner make of a certificate.
use lemur.Prelude.{
  ℕ, String, Bool, true, false, not, ◌&&◌, ◌||◌, ◌≡◌, refl, ap, ◌∙◌, Option, none, some, List, [],
  ◌∷◌, ◌++◌, ◌==◌, nat_eq, string_eq, nat_beq_iff, eq_iff, if◌then◌else◌, arith, any, Option-cases,
  Bool-cases, inl, inr,
}
use lemur.Prelude.Table.{find, find-put, put, modify, find-modify}
use lemur.Prelude.Text.{is_empty, is_empty-concat}
use lemur.Certificates.{
  Destination, Certificate, certificate_id, Plugins, Db, get, Cleanup, remove_from_destination,
  removal_error, has_label, update_destinations, set_destinations, uploaded_then,
  update_replacement,
}
use lemur.Certificates.Revocation.{lets_go}
use lemur.Certificates.Views.{
  Site, Edit, drop_destination, drop_destinations, start_edit, update, edited, put_valid,
}

has_label-append :
    (l : String) (ds : List Destination) (d : Destination)
    → has_label l (ds ++ d ∷ []) ≡ (has_label l ds || d.label == l)
has_label-append l [] d = ground arith
has_label-append l (e ∷ ds) d = ground (arith, has_label-append l ds d)

-- Whether the plugin of a destination holds the certificate back.
abbrev holds : Plugins → ℕ → Destination → Bool
holds p i d = not (lets_go p i d)

has_label-drop_destination :
    (l : String) (p : Plugins) (i : ℕ) (d : Destination) (s : Cleanup)
    → has_label l (drop_destination p i d s).destinations
      ≡ (has_label l s.destinations || d.label == l && holds p i d)
unfolding drop_destination remove_from_destination lets_go
has_label-drop_destination l p i d s =
    ground (arith, has_label-append l s.destinations d, eq_iff d.label l, same)
  where
    same : d.label ≡ l → has_label d.label s.destinations ≡ has_label l s.destinations
    same e = ap (λ x. has_label x s.destinations) e

has_label-drop :
    (l : String) (p : Plugins) (i : ℕ) (ds : List Destination) (s : Cleanup)
    → has_label l (drop_destinations p i ds s).destinations
      ≡ (has_label l s.destinations || any (λ d. d.label == l && holds p i d) ds)
unfolding drop_destinations any
has_label-drop l p i [] s = ground arith
has_label-drop l p i (d ∷ ds) s = ground (
  arith,
  has_label-drop l p i ds (drop_destination p i d s),
  has_label-drop_destination l p i d s,
)

-- Whether each of the destinations is wanted, or lets the certificate go.
unfoldable pub all_gone : Plugins → ℕ → (wanted ds : List Destination) → Bool
all_gone p i wanted [] = true
all_gone p i wanted (d ∷ ds) = (has_label d.label wanted || lets_go p i d) && all_gone p i wanted ds

message-drop_destination :
    (p : Plugins) (i : ℕ) (d : Destination) (s : Cleanup)
    → is_empty (drop_destination p i d s).message
      ≡ (is_empty s.message && (has_label d.label s.destinations || lets_go p i d))
unfolding drop_destination remove_from_destination lets_go
message-drop_destination p i d s = elim (Option-cases (p.clean i d)) [
  | inl e ↦ ground arith
  | inr (text, e) ↦ ground (arith, is_empty-concat s.message (removal_error d text))
]

destinations-drop_destination :
    (p : Plugins) (i : ℕ) (d : Destination) (s : Cleanup)
    → (has_label d.label s.destinations || lets_go p i d) ≡ true
    → (drop_destination p i d s).destinations ≡ s.destinations
unfolding drop_destination remove_from_destination lets_go
destinations-drop_destination p i d s h = ground arith

message-drop :
    (p : Plugins) (i : ℕ) (ds : List Destination) (s : Cleanup)
    → is_empty (drop_destinations p i ds s).message
      ≡ (is_empty s.message && all_gone p i s.destinations ds)
unfolding drop_destinations all_gone
message-drop p i [] s = ground arith
message-drop p i (d ∷ ds) s =
    elim (Bool-cases (has_label d.label s.destinations || lets_go p i d)) [
      | inl e ↦ ground (
        arith,
        message-drop p i ds (drop_destination p i d s),
        message-drop_destination p i d s,
        ap (λ x. all_gone p i x ds) (destinations-drop_destination p i d s e),
      )
      | inr e ↦
          ground (
            arith,
            message-drop p i ds (drop_destination p i d s),
            message-drop_destination p i d s,
          )
    ]

uploaded_then-none :
    (u : Option String × List (ℕ × String))
    (rest : List (ℕ × String) → Option String × List (ℕ × String))
    → ((x : List (ℕ × String)) → (rest x).0 ≡ none)
    → u.0 ≡ none
    → (uploaded_then u rest).0 ≡ none
uploaded_then-none (none, uploaded) rest h e = h uploaded
uploaded_then-none (some x, uploaded) rest h e = e

module _ (w : Site) (silent : (i : ℕ) (d : Destination) → w.plugins.upload i d ≡ none) where
  update_destinations-none :
      (c : Certificate) (d : Destination) (uploaded : List (ℕ × String))
      → (update_destinations w.plugins w.now c d uploaded).0 ≡ none
  unfolding update_destinations
  update_destinations-none c d uploaded = ground (arith, silent c.id d)

  set_destinations-none :
      (c : Certificate) (ds : List Destination) (uploaded : List (ℕ × String))
      → (set_destinations w.plugins w.now c ds uploaded).0 ≡ none
  unfolding set_destinations
  set_destinations-none c [] uploaded = refl
  set_destinations-none c (d ∷ ds) uploaded = elim (Bool-cases (has_label d.label c.destinations)) [
    | inl e ↦ rw (e, set_destinations) (set_destinations-none c ds uploaded)
    | inr e ↦
        rw (e, set_destinations)
          (uploaded_then-none (update_destinations w.plugins w.now c d uploaded) _
            (set_destinations-none c ds) (update_destinations-none c d uploaded))
  ]

-- The destinations of a row that was found.
abbrev pub found_label : String → Option Certificate → Bool
found_label l none = false
found_label l (some r) = has_label l r.destinations

found_label-update_replacement :
    (l : String) (i : ℕ) (ids : List ℕ) (xs : List Certificate)
    → found_label l (find certificate_id i (update_replacement ids xs))
      ≡ found_label l (find certificate_id i xs)
unfolding update_replacement
found_label-update_replacement l i [] xs = refl
found_label-update_replacement l i (k ∷ ids) xs = found_label-update_replacement l i ids _ ∙ step
  where
    mute : Certificate → Certificate
    mute r = record r { notify = false }

    step :
        found_label l (find certificate_id i (modify certificate_id k mute xs))
        ≡ found_label l (find certificate_id i xs)
    step = ground (arith, find-modify certificate_id k i mute xs (λ r. refl))

found_label-put :
    (l : String) (c r : Certificate) (xs : List Certificate)
    → find certificate_id c.id xs ≡ some c
    → r.id ≡ c.id
    → found_label l (find certificate_id c.id (put certificate_id r xs))
      ≡ has_label l r.destinations
found_label-put l c r xs f e =
    ground (arith, find-put certificate_id c.id r xs, f, nat_beq_iff r.id c.id)

update-found_label :
    (l : String) (w : Site) (c : Certificate) (e : Edit) (db : Db)
    → get c.id db ≡ some c
    → ((i : ℕ) (d : Destination) → w.plugins.upload i d ≡ none)
    → (found_label l (get c.id (update w c e db).1) ≡ has_label l e.destinations)
      × ((update w c e db).0 ≡ none)
unfolding update
update-found_label l w c e db f silent =
    rw (set_destinations-none w silent c e.destinations db.uploaded, update)
      (
        found_label-update_replacement l c.id _ _ ∙ found_label-put l c _ db.certificates f refl,
        refl,
      )

edited-code :
    (l : String) (message : String) (c : Certificate) (i : ℕ) (u : Option String × Db)
    → u.0 ≡ none
    → ((edited message c u).0.code ≡ (if is_empty message then 200 else 400))
      × (found_label l (get i (edited message c u).1) ≡ found_label l (get i u.1))
edited-code l message c i (none, db) e = (ground arith, refl)
edited-code l message c i (some x, db) e = cc

-- An edit that passed the checks of the handler, where no upload raises, leaves the certificate at the destinations that are wanted and at
-- those among the old ones whose plugin raised on cleaning; it is then answered with 200 exactly when each
-- old destination is wanted or could be cleaned, and with 400 otherwise.
pub put_valid-destinations :
    (l : String) (w : Site) (c : Certificate) (e : Edit) (db : Db)
    → get c.id db ≡ some c
    → ((i : ℕ) (d : Destination) → w.plugins.upload i d ≡ none)
    → (found_label l (get c.id (put_valid w c e db).1) ≡ (
        has_label l e.destinations
        || any (λ d. d.label == l && not (lets_go w.plugins c.id d)) c.destinations))
      × ((put_valid w c e db).0.code
          ≡ (if all_gone w.plugins c.id e.destinations c.destinations then 200 else 400))
unfolding put_valid
put_valid-destinations l w c e db f silent = (
  answer.1 ∙ (updated.0 ∙ has_label-drop l w.plugins c.id c.destinations (start_edit e db)),
  answer.0
      ∙ ap (λ (b : Bool). if b then 200 else 400)
          (message-drop w.plugins c.id c.destinations (start_edit e db)),
)
  where
    s : Cleanup
    s = drop_destinations w.plugins c.id c.destinations (start_edit e db)

    e' : Edit
    e' = record e { destinations = s.destinations }

    db' : Db
    db' = record db { cleaned = s.cleaned }

    updated :
        (found_label l (get c.id (update w c e' db').1) ≡ has_label l s.destinations)
        × ((update w c e' db').0 ≡ none)
    updated = update-found_label l w c e' db' f silent

    answer :
        ((edited s.message c (update w c e' db')).0.code
          ≡ (if is_empty s.message then 200 else 400))
        × (found_label l (get c.id (edited s.message c (update w c e' db')).1)
            ≡ found_label l (get c.id (update w c e' db').1))
    answer = edited-code l s.message c c.id (update w c e' db') updated.1
