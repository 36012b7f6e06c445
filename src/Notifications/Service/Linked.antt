-- ===== src/Notifications/Service/Linked.antt =====
-- The certificates of a notification that is updated, lemur/notifications/service.py.
use lemur.Prelude.{
  ℕ, String, ◌≡◌, refl, sym, ap, ◌∙◌, Bool, false, not, ◌&&◌, ◌||◌, Option, none, some, List, ◌++◌,
  ◌==◌, nat_eq, if◌then◌else◌, inl, inr, select, contains, contains-append, contains-selection,
  Bool-cases, nat_beq_iff,
}
use lemur.Prelude.Table.{find, put, find-put, find-key}
use lemur.Notifications.{PluginOption}
use lemur.Notifications.Service.{Notification, Db, notification_id, get, update}

-- Whether a notification is there and is sent for a certificate.
unfoldable pub is_sent_for : ℕ → Option Notification → Bool
is_sent_for c none = false
is_sent_for c (some n) = contains c n.certificates

-- What the table holds after an update that did not raise.
unfoldable pub after : Option Db → ℕ → Option Notification
after none i = none
after (some db) i = get i db

abbrev changed :
    (label plugin_name : String)
    → List PluginOption
    → (description : String) → (active : Bool) → (added removed : List ℕ) → Notification
    → Notification
changed label plugin_name options description active added removed n = record n {
  label = label;
  plugin_name = plugin_name;
  options = options;
  description = description;
  active = active;
  certificates = select (λ c. not (contains c removed)) (n.certificates ++ added);
}

module _ (i : ℕ) (label plugin_name : String) (options : List PluginOption) (description : String)
    (active : Bool) (added removed : List ℕ) (db : Db) {n : Notification}
    (h : get i db ≡ some n) where
  update-changed :
      update i label plugin_name options description active added removed db
      ≡ some (record db {
        rows =
            put notification_id
              (changed label plugin_name options description active added removed n)
              db.rows;
      })
  unfolding update
  update-changed = rw (update, h) refl

  get-update :
      (j : ℕ)
      → after (update i label plugin_name options description active added removed db) j ≡ (
          if i == j
          then some (changed label plugin_name options description active added removed n)
          else get j db)
  unfolding after get
  get-update j =
      let key = ap (λ k. k == j) (find-key notification_id i db.rows h) in
      elim (Bool-cases (i == j)) [
        | inl e ↦
            let same = (nat_beq_iff i j).0 e in
            let at : find notification_id j db.rows ≡ some n = ap (λ k. get k db) (sym same) ∙ h in
            rw (update-changed, after, get, find-put notification_id j _ db.rows, key, e, at) refl
        | inr e ↦ rw (update-changed, after, get, find-put notification_id j _ db.rows, key, e) refl
      ]

-- After an update of a notification that is there, a certificate is among its certificates exactly
-- where it was before or was added, and is not among the removed ones; no other row has changed.
pub update-is_sent_for :
    (i j c : ℕ) (label plugin_name : String) (options : List PluginOption) (description : String)
    (active : Bool) (added removed : List ℕ) (db : Db) {n : Notification}
    → get i db ≡ some n
    → (is_sent_for c
          (after (update i label plugin_name options description active added removed db) i)
        ≡ ((is_sent_for c (get i db) || contains c added) && not (contains c removed)))
      × ((i == j) ≡ false
          → after (update i label plugin_name options description active added removed db) j
            ≡ get j db)
unfolding is_sent_for
update-is_sent_for i j c label plugin_name options description active added removed db {n} h =
    let got = get-update i label plugin_name options description active added removed db h in
    (
      rw
          (
            got i,
            (nat_beq_iff i i).1 refl,
            h,
            contains-selection (λ k. not (contains k removed)) c (n.certificates ++ added),
            contains-append c n.certificates added,
          )
          refl,
      λ d. got j ∙ rw d refl,
    )
