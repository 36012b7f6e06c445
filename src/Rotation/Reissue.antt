-- ===== src/Rotation/Reissue.antt =====
-- `reissue` of lemur/certificates/cli.py with what it calls of lemur/certificates/service.py and
-- lemur/notifications/messaging.py, and the task `certificate_reissue` of lemur/common/celery.py.
use lemur.Prelude.{
  ℕ, String, ◌+◌, ◌-◌, ◌*◌, ◌/◌, Bool, true, false, not, ◌&&◌, Option, none, some, List, [], ◌∷◌,
  ◌++◌, nat_eq, string_eq, if◌then◌else◌, select, contains, any, map, leb,
}
use lemur.Prelude.Result.{Result, ok, err}
use lemur.Prelude.Table.{find, modify}
use lemur.Rotation.{
  Certificate, Db, Site, Stop, Issued, raised, pending, minted, Mail, reissued_with_no_endpoints,
  reissue_failed, certificate_id, is_replaced, endpoints_of, validate_certificate,
}

-- The hybrid property of an object.
unfoldable pub is_in_rotation_window : ℕ → Certificate → Bool
is_in_rotation_window now c = leb c.not_after (now + c.policy_days * 86400)

-- The expression of the hybrid property: the days left, of which a begun one does not count. It names
-- the days of the policies without a join, so those of any policy count.
unfoldable pub in_rotation_window : (policies : List ℕ) → ℕ → Certificate → Bool
in_rotation_window policies now c = any (λ days. leb ((c.not_after - now) / 86400) days) policies

unfoldable pub awaits_reissue : (policies : List ℕ) → ℕ → Certificate → Bool
awaits_reissue policies now c =
    c.rotation && not (is_replaced c) && in_rotation_window policies now c

unfoldable pub get_all_pending_reissue : Site → Db → List ℕ
get_all_pending_reissue w db =
    map certificate_id (select (awaits_reissue w.policies w.now) db.certificates)

-- `replaces=[certificate]`, with the listener that turns the notifications of the old one off.
abbrev pub replaced_by : ℕ → Certificate → Certificate
replaced_by new c = record c { replaced = c.replaced ++ new ∷ []; notify = false }

abbrev pub with_new : ℕ → Certificate → Db → Db
with_new i new db = record db {
  certificates =
      modify certificate_id i (replaced_by db.next) db.certificates
      ++ record new { id = db.next; replaced = [] } ∷ [];
  next = db.next + 1;
}

-- What was issued, and what it leaves; a certificate that is still pending replaces nothing yet.
unfoldable pub reissue_certificate : Site → ℕ → Db → Issued × Db
reissue_certificate w i db =
    (w.issue i, elim (w.issue i) [ raised ↦ db | pending ↦ db | minted new ↦ with_new i new db ])

unfoldable pub send_reissue_no_endpoints_notification :
    Site → Certificate → (new : ℕ) → Db → List Mail
send_reissue_no_endpoints_notification w old new db = elim (endpoints_of old.id db) [
  | _ ∷ _ ↦ []
  | [] ↦
      if any (λ d. contains d w.excluded_destinations) old.destinations
      then []
      else reissued_with_no_endpoints new ∷ []
]

abbrev pub add_mails : List Mail → Db → Db
add_mails mails db = record db { mails = db.mails ++ mails }

abbrev pub reissue_answer : Site → (notify : Bool) → Certificate → Db → Issued × Db → Db
reissue_answer w notify c before (raised, db) =
    add_mails (if notify then reissue_failed c.id ∷ [] else []) db
reissue_answer w notify c before (pending, db) = db
reissue_answer w notify c before (minted new, db) =
    add_mails (if notify then send_reissue_no_endpoints_notification w c before.next db else []) db

-- `request_reissue`, for a row that was read; the notice depends on the flag from before.
unfoldable pub request_reissue_row : Site → (notify commit : Bool) → Certificate → Db → Db
request_reissue_row w notify commit c db =
    let issued = reissue_answer w (notify && c.notify) c db (reissue_certificate w c.id db) in
    if w.serialises c.id
    then (if commit then issued else db)
    else add_mails (if notify && c.notify then reissue_failed c.id ∷ [] else []) db

unfoldable pub request_reissue : Site → (notify commit : Bool) → ℕ → Db → Db
request_reissue w notify commit i db = elim (find certificate_id i db.certificates) [
  | none ↦ db
  | some c ↦ request_reissue_row w notify commit c db
]

unfoldable pub reissue_all : Site → (notify commit : Bool) → List ℕ → Db → Db
reissue_all w notify commit [] db = db
reissue_all w notify commit (i ∷ ids) db =
    reissue_all w notify commit ids (request_reissue w notify commit i db)

unfoldable pub reissue_named :
    Site
    → (notify commit : Bool) → Result Stop (Option Certificate)
    → Db
    → Result Stop (Unit {0}) × Db
reissue_named w notify commit (err s) db = (err s, db)
reissue_named w notify commit (ok none) db =
    (ok tt, reissue_all w notify commit (get_all_pending_reissue w db) db)
reissue_named w notify commit (ok (some c)) db = (ok tt, request_reissue w notify commit c.id db)

unfoldable pub reissue :
    Site
    → (old_certificate : Option String) → (notify commit : Bool) → Db
    → Result Stop (Unit {0}) × Db
reissue w name notify commit db = reissue_named w notify commit (validate_certificate name db) db

unfoldable pub certificate_reissue : Site → (notify : Bool) → Db → Result Stop (Unit {0}) × Db
certificate_reissue w notify db = reissue w none notify true db
