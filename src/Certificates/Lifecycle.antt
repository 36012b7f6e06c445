-- ===== src/Certificates/Lifecycle.antt =====
-- What no sequence of requests undoes.
use lemur.Prelude.{
  ℕ, String, Bool, true, false, not, ◌≡◌, refl, sym, subst, ap, ◌∙◌, Option, none, some, List, [],
  ◌∷◌, ◌==◌, nat_eq, nat_beq_iff, if◌then◌else◌, arith, Option-cases, Bool-cases, inl, inr, any,
  string_eq,
}
use lemur.Prelude.Table.{find, find-put, find-key, put, modify, find-modify}
use lemur.Prelude.Result.{Result, ok, err}
use lemur.Auth.Permissions.{Account}
use lemur.Certificates.{
  Certificate, Failure, not_implemented, failed, certificate_id, Plugins, Db, get, revoked, revoke,
  cleanup_after_revoke, deactivate, update_switches, update_owner, update_replacement,
  validate_no_duplicate_destinations, is_attached_to_endpoint, set_destinations,
}
use lemur.Certificates.Views.{
  Site, Response, Edit, Request, put as put_request, update_owners, switches, delete, revokes,
  deactivates, view_key, export, may_act, if_allowed, lacks_key, update, edited, revoke_answer,
  deactivate_answer, put_valid, put_allowed, revoke_allowed, deactivate_allowed, post_switches,
  post_owner, respond, handle, is_disabled,
}

-- A row that is still the same certificate of the same creator, and is revoked or deleted where the
-- other was.
abbrev pub Continues : Certificate → Certificate → Type 0
Continues c r =
    ((r.id ≡ c.id)
      × (r.name ≡ c.name)
      × (r.user ≡ c.user)
      × (r.has_private_key ≡ c.has_private_key))
    × (revoked c ≡ true → revoked r ≡ true)
    × (c.deleted ≡ true → r.deleted ≡ true)

abbrev pub ContinuesIn : Certificate → Option Certificate → Type 0
ContinuesIn c none = ⊥
ContinuesIn c (some r) = Continues c r

Continues-refl : (c : Certificate) → Continues c c
Continues-refl c = ((refl, refl, refl, refl), λ h. h, λ h. h)

ContinuesIn-trans :
    (c d : Certificate) (o : Option Certificate) → Continues c d → ContinuesIn d o → ContinuesIn c o
ContinuesIn-trans c d none h k = k
ContinuesIn-trans c d (some r) h k = ground (arith, h, k)

-- Every row of a table goes on in another.
abbrev Goes : List Certificate → List Certificate → Type 0
Goes xs ys =
    (j : ℕ) (c : Certificate)
    → find certificate_id j xs ≡ some c
    → ContinuesIn c (find certificate_id j ys)

Goes-refl : (xs : List Certificate) → Goes xs xs
Goes-refl xs j c h = subst (ContinuesIn c) (sym h) (Continues-refl c)

some_injective : {A : Type 0} {a b : A} → some a ≡ some b → a ≡ b
some_injective e = cc

Goes-put :
    (c r : Certificate) (xs : List Certificate)
    → find certificate_id c.id xs ≡ some c
    → Continues c r
    → Goes xs (put certificate_id r xs)
Goes-put c r xs f k j d g =
    subst (ContinuesIn d) (sym (find-put certificate_id j r xs)) (elim (Bool-cases (r.id == j)) [
      | inl e ↦ rw (e, g) (subst (λ x. Continues x r) (same e) k)
      | inr e ↦ rw (e, g) (Continues-refl d)
    ])
  where
    same : (r.id == j) ≡ true → c ≡ d
    same e =
        some_injective
          (sym f ∙ (ap (λ n. find certificate_id n xs) (sym k.0.0 ∙ (nat_beq_iff r.id j).0 e) ∙ g))

Goes-trans : (xs ys zs : List Certificate) → Goes xs ys → Goes ys zs → Goes xs zs
Goes-trans xs ys zs h k j d g = goes (find certificate_id j ys) refl (h j d g)
  where
    goes :
        (o : Option Certificate)
        → find certificate_id j ys ≡ o
        → ContinuesIn d o
        → ContinuesIn d (find certificate_id j zs)
    goes none e x = absurd x
    goes (some r) e x = ContinuesIn-trans d r (find certificate_id j zs) x (k j r e)

abbrev mute : Certificate → Certificate
mute r = record r { notify = false }

Goes-modify : (i : ℕ) (xs : List Certificate) → Goes xs (modify certificate_id i mute xs)
unfolding revoked
Goes-modify i xs j d g =
    subst (ContinuesIn d) (sym (find-modify certificate_id i j mute xs (λ r. refl)))
      (elim (Bool-cases (i == j)) [
        | inl e ↦ rw (e, g) ((refl, refl, refl, refl), λ h. h, λ h. h)
        | inr e ↦ rw (e, g) (Continues-refl d)
      ])

Goes-update_replacement :
    (ids : List ℕ) (xs : List Certificate) → Goes xs (update_replacement ids xs)
unfolding update_replacement
Goes-update_replacement [] xs = Goes-refl xs
Goes-update_replacement (i ∷ ids) xs =
    Goes-trans xs (modify certificate_id i mute xs) _ (Goes-modify i xs)
      (Goes-update_replacement ids (modify certificate_id i mute xs))

Goes-if :
    {A : Type 0} (b : Bool) (xs : List Certificate) (x y : A × Db)
    → Goes xs x.1.certificates
    → Goes xs y.1.certificates
    → Goes xs (if b then x else y).1.certificates
Goes-if true xs x y h k = h
Goes-if false xs x y h k = k

edited_lem :
    (m : String) (c : Certificate) (u : Option String × Db)
    → (edited m c u).1.certificates ≡ u.1.certificates
edited_lem m c (none, db) = refl
edited_lem m c (some text, db) = refl

revoke_answer_lem :
    (c : Certificate) (u : Result Failure String × Db)
    → (revoke_answer c u).1.certificates ≡ u.1.certificates
revoke_answer_lem c (err not_implemented, db) = refl
revoke_answer_lem c (err (failed text), db) = refl
revoke_answer_lem c (ok m, db) = refl

deactivate_answer_lem :
    (c : Certificate) (u : Result Failure (Unit {0}) × Db)
    → (deactivate_answer c u).1.certificates ≡ u.1.certificates
deactivate_answer_lem c (err not_implemented, db) = refl
deactivate_answer_lem c (err (failed text), db) = refl
deactivate_answer_lem c (ok m, db) = refl

update-Goes :
    (w : Site) (c : Certificate) (e : Edit) (db : Db)
    → get c.id db ≡ some c
    → Goes db.certificates (update w c e db).1.certificates
unfolding update revoked
update-Goes w c e db f =
    elim (Option-cases (set_destinations w.plugins w.now c e.destinations db.uploaded).0) [
      | inl p ↦
          rw (p, update)
            (Goes-trans _ _ _
              (Goes-put c _ db.certificates f ((refl, refl, refl, refl), λ h. h, λ h. h))
              (Goes-update_replacement _ _))
      | inr (text, p) ↦ rw (p, update) (Goes-refl db.certificates)
    ]

module _ (c : Certificate) (db : Db) (f : get c.id db ≡ some c) where
  put_valid-Goes : (w : Site) (e : Edit) → Goes db.certificates (put_valid w c e db).1.certificates
  unfolding put_valid
  put_valid-Goes w e =
      rw (edited_lem _ c (update w c _ _)) (update-Goes w c _ (record db { cleaned = _ }) f)

  revoke-Goes : (p : Plugins) → Goes db.certificates (revoke p c db).1.certificates
  unfolding revoke cleanup_after_revoke revoked
  revoke-Goes p = elim (Option-cases (p.revoke_certificate c.authority c.id)) [
    | inl e ↦
        rw (e, revoke)
          (Goes-put c _ db.certificates f ((refl, refl, refl, refl), λ h. ground arith, λ h. h))
    | inr (x, e) ↦ rw (e, revoke) (Goes-refl db.certificates)
  ]

  deactivate-certificates : (p : Plugins) → (deactivate p c db).1.certificates ≡ db.certificates
  unfolding deactivate
  deactivate-certificates p = ground arith

  put_allowed-Goes :
      (w : Site) (e : Edit) → Goes db.certificates (put_allowed w c e db).1.certificates
  unfolding put_allowed
  put_allowed-Goes w e =
      Goes-if (not (validate_no_duplicate_destinations w.plugins e.destinations)) db.certificates _
        _ (Goes-refl db.certificates)
        (Goes-if (lacks_key w.plugins c e.destinations) db.certificates _ _
          (Goes-refl db.certificates)
          (Goes-if (c.owner == e.owner) db.certificates _ _ (put_valid-Goes w e) (
            Goes-if (w.valid_owner e.owner) db.certificates _ _ (put_valid-Goes w _)
              (Goes-refl db.certificates))))

  revoke_allowed-Goes : (w : Site) → Goes db.certificates (revoke_allowed w c db).1.certificates
  unfolding revoke_allowed
  revoke_allowed-Goes w =
      Goes-if (any (is_attached_to_endpoint w.plugins c.name) c.endpoints) db.certificates _ _
        (Goes-refl db.certificates)
        (rw (revoke_answer_lem c (revoke w.plugins c db)) (revoke-Goes w.plugins))

  deactivate_allowed-Goes :
      (w : Site) → Goes db.certificates (deactivate_allowed w c db).1.certificates
  unfolding deactivate_allowed
  deactivate_allowed-Goes w =
      rw (deactivate_answer_lem c (deactivate w.plugins c db), deactivate-certificates w.plugins)
        (Goes-refl db.certificates)

  if_allowed-Goes :
      (w : Site) (user : Account) (x : Response × Db)
      → Goes db.certificates x.1.certificates
      → Goes db.certificates (if_allowed w user c x db).1.certificates
  if_allowed-Goes w user x h =
      Goes-if (may_act w user c) db.certificates _ _ h (Goes-refl db.certificates)

  saved :
      (r : Certificate)
      → Continues c r
      → Goes db.certificates (put certificate_id r db.certificates)
  saved r k = Goes-put c r db.certificates f k

  respond-Goes :
      (w : Site) (user : Account) (r : Request)
      → Goes db.certificates (respond w user r c db).1.certificates
  unfolding respond post_switches post_owner update_switches update_owner revoked
  respond-Goes w user (put_request e) = if_allowed-Goes w user _ (put_allowed-Goes w e)
  respond-Goes w user (switches n r) =
      if_allowed-Goes w user _ (saved _ ((refl, refl, refl, refl), λ h. h, λ h. h))
  respond-Goes w user (update_owners e) =
      Goes-if (w.valid_owner e.owner) db.certificates _ _
        (if_allowed-Goes w user _ (saved _ ((refl, refl, refl, refl), λ h. h, λ h. h)))
        (Goes-refl db.certificates)
  respond-Goes w user delete =
      Goes-if c.deleted db.certificates _ _ (Goes-refl db.certificates)
        (if_allowed-Goes w user _ (saved _ ((refl, refl, refl, refl), λ h. h, λ h. refl)))
  respond-Goes w user revokes = if_allowed-Goes w user _ (revoke_allowed-Goes w)
  respond-Goes w user deactivates = if_allowed-Goes w user _ (deactivate_allowed-Goes w)
  respond-Goes w user view_key = if_allowed-Goes w user _ (Goes-refl db.certificates)
  respond-Goes w user (export requires_key) =
      Goes-if requires_key db.certificates _ _
        (Goes-if c.has_private_key db.certificates _ _
          (if_allowed-Goes w user _ (Goes-refl db.certificates)) (Goes-refl db.certificates))
        (Goes-refl db.certificates)

handle-Goes :
    (w : Site) (user : Account) (i : ℕ) (r : Request) (db : Db)
    → Goes db.certificates (handle w user i r db).1.certificates
unfolding handle
handle-Goes w user i r db =
    Goes-if (is_disabled w r) db.certificates _ _ (Goes-refl db.certificates)
      (elim (Option-cases (get i db)) [
        | inl e ↦ rw e (Goes-refl db.certificates)
        | inr (c, e) ↦ rw e (
            respond-Goes c db
              (subst (λ n. get n db ≡ some c) (sym (find-key certificate_id i db.certificates e)) e)
              w user r)
      ])

-- The table that requests leave: of users, in any order, with whatever the plugins answer each time.
pub data Reach (db : Db) : Db → Type 0 where
  here : Reach db db
  next :
      {now : Db} (w : Site) (user : Account) (i : ℕ) (r : Request)
      → Reach db now
      → Reach db (handle w user i r now).1

-- After any requests of any users, whatever the plugins answer and whatever the settings become, the
-- certificate of a number is still there, with its name, its creator and whether it has a private key, is revoked
-- if it was revoked, and deleted if it was deleted.
pub Reach-ContinuesIn :
    {db db' : Db} (j : ℕ) (c : Certificate)
    → Reach db db'
    → get j db ≡ some c
    → ContinuesIn c (get j db')
Reach-ContinuesIn {db} j c here h = Goes-refl db.certificates j c h
Reach-ContinuesIn {db} j c (next {now} w user i r before) h =
    Goes-trans db.certificates now.certificates _ (λ k d g. Reach-ContinuesIn k d before g)
      (handle-Goes w user i r now) j c h
