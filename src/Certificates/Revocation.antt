-- ===== src/Certificates/Revocation.antt =====
-- What a revocation leaves of a certificate.
use lemur.Prelude.{
  ℕ, String, Bool, true, false, not, ◌&&◌, ◌||◌, ◌≡◌, refl, Option, none, some, List, [], ◌∷◌, ◌++◌,
  ◌==◌, nat_eq, string_eq, select, any, all, arith, subst, sym, nat_beq_iff, eq_iff, Option-cases,
  inl, inr,
}
use lemur.Prelude.Table.{find-put}
use lemur.Prelude.Text.{is_empty, is_empty-concat}
use lemur.Prelude.Result.{Result, ok, err}
use lemur.Certificates.{
  Failure, Destination, Certificate, certificate_id, Plugins, Db, get, has_label, remove, Cleanup,
  remove_from_destination, removal_error, cleanup_destination, cleanup_destinations, start_cleanup,
  cleanup_after_revoke, revoke,
}

-- Whether an answer of a plugin is no exception.
abbrev is_none : Option String → Bool
is_none none = true
is_none (some _) = false

-- Whether a destination lets the certificate go: its plugin has no `clean`, or `clean` does not raise.
unfoldable pub lets_go : Plugins → ℕ → Destination → Bool
lets_go p i d = not (p.has_clean d.plugin_name) || is_none (p.clean i d)

pub has_label-remove :
    (l : String) (d : Destination) (ds : List Destination)
    → has_label l (remove d ds) ≡ (has_label l ds && not (d.label == l))
unfolding remove select
has_label-remove l d [] = refl
has_label-remove l d (e ∷ ds) =
    ground
      (arith, has_label-remove l d ds, eq_iff e.label d.label, eq_iff e.label l, eq_iff d.label l)

has_label-cleanup_destination :
    (l : String) (p : Plugins) (i : ℕ) (d : Destination) (s : Cleanup)
    → has_label l (cleanup_destination p i d s).destinations
      ≡ (has_label l s.destinations && not (d.label == l && lets_go p i d))
unfolding cleanup_destination remove_from_destination lets_go
has_label-cleanup_destination l p i d s = ground (arith, has_label-remove l d s.destinations)

has_label-cleanup :
    (l : String) (p : Plugins) (i : ℕ) (ds : List Destination) (s : Cleanup)
    → has_label l (cleanup_destinations p i ds s).destinations
      ≡ (has_label l s.destinations && not (any (λ d. d.label == l && lets_go p i d) ds))
unfolding cleanup_destinations any
has_label-cleanup l p i [] s = ground arith
has_label-cleanup l p i (d ∷ ds) s = ground (
  arith,
  has_label-cleanup l p i ds (cleanup_destination p i d s),
  has_label-cleanup_destination l p i d s,
)

message-cleanup_destination :
    (p : Plugins) (i : ℕ) (d : Destination) (s : Cleanup)
    → is_empty (cleanup_destination p i d s).message ≡ (is_empty s.message && lets_go p i d)
unfolding cleanup_destination remove_from_destination lets_go
message-cleanup_destination p i d s = elim (Option-cases (p.clean i d)) [
  | inl e ↦ ground arith
  | inr (text, e) ↦ ground (arith, is_empty-concat s.message (removal_error d text))
]

message-cleanup :
    (p : Plugins) (i : ℕ) (ds : List Destination) (s : Cleanup)
    → is_empty (cleanup_destinations p i ds s).message
      ≡ (is_empty s.message && all (lets_go p i) ds)
unfolding cleanup_destinations all
message-cleanup p i [] s = ground arith
message-cleanup p i (d ∷ ds) s = ground (
  arith,
  message-cleanup p i ds (cleanup_destination p i d s),
  message-cleanup_destination p i d s,
)

abbrev cleaned_up : Plugins → Certificate → Db → Certificate
cleaned_up p c db = record c {
  notify = false;
  rotation = false;
  status = some "revoked";
  destinations = (cleanup_destinations p c.id c.destinations (start_cleanup c db)).destinations;
}

-- A row that is revoked, sends no notification, is not rotated, and keeps of the destinations of the
-- other exactly those whose plugin did not let the certificate go.
abbrev pub Retired : Plugins → Certificate → Option Certificate → Type 0
Retired p c none = ⊥
Retired p c (some r) =
    (r.status ≡ some "revoked")
    × (r.notify ≡ false)
    × (r.rotation ≡ false)
    × ((l : String)
        → has_label l r.destinations ≡ (
            has_label l c.destinations
            && not (any (λ d. d.label == l && lets_go p c.id d) c.destinations)))

found :
    (p : Plugins) (c : Certificate) (db : Db)
    → get c.id db ≡ some c
    → get c.id (cleanup_after_revoke p c db).1 ≡ some (cleaned_up p c db)
unfolding cleanup_after_revoke
found p c db h =
    ground (
      arith,
      find-put certificate_id c.id (cleaned_up p c db) db.certificates,
      nat_beq_iff c.id c.id,
    )

cleaned_up-Retired :
    (p : Plugins) (c : Certificate) (db : Db)
    → get c.id db ≡ some c
    → Retired p c (get c.id (cleanup_after_revoke p c db).1)
unfolding cleanup_after_revoke
cleaned_up-Retired p c db h =
    subst (Retired p c) (sym (found p c db h))
      (refl, refl, refl, λ l. has_label-cleanup l p c.id c.destinations (start_cleanup c db))

-- An outcome without exception, whose message is empty exactly as told.
abbrev pub Reports : Bool → Result Failure String → Type 0
Reports b (ok message) = is_empty message ≡ b
Reports b (err e) = ⊥

-- Where the issuer's plugin does not raise, the row of the certificate ends revoked, with notification
-- and rotation off, and keeps a destination exactly when the plugin of the destination raised on
-- cleaning; the message returned is empty exactly when none raised.
pub revoke-Retired :
    (p : Plugins) (c : Certificate) (db : Db)
    → get c.id db ≡ some c
    → p.revoke_certificate c.authority c.id ≡ none
    → Retired p c (get c.id (revoke p c db).1)
      × Reports (all (lets_go p c.id) c.destinations) (revoke p c db).0
unfolding revoke cleanup_after_revoke
revoke-Retired p c db h e =
    rw (e, revoke)
      (
        cleaned_up-Retired p c (record db { calls = db.calls ++ ("revoke", c.id) ∷ [] }) h,
        message-cleanup p c.id c.destinations
            (start_cleanup c (record db { calls = db.calls ++ ("revoke", c.id) ∷ [] })),
      )
