-- ===== src/Notifications/Service/Defaults.antt =====
-- The default notifications of an owner, lemur/notifications/service.py.
use lemur.Prelude.{
  ℕ, String, ◌≡◌, refl, Option, none, some, List, [], ◌∷◌, if◌then◌else◌, ◌==◌, nat_eq, string_eq,
  beq_refl, Option-cases, inl, inr,
}
use lemur.Prelude.Table.{first, first-append}
use lemur.Notifications.{PluginOption}
use lemur.Notifications.Service.{
  Notification, Site, Db, has_label, get_by_label, create, default_options, default_label,
  get_or_create, default_notifications, intervals_of, create_default_expiration_notifications,
}

-- What one table has under a label, another has.
abbrev Keeps : Db → Db → Type 0
Keeps db next =
    (label : String) (n : Notification)
    → get_by_label label db ≡ some n
    → get_by_label label next ≡ some n

-- What `create` makes is found under its label, unless a row of that label was there before.
pub get-create :
    (name label plugin_name : String) (options : List PluginOption) (description : String)
    (certificates : List ℕ) (db : Db)
    → get_by_label name (create label plugin_name options description certificates db).1
      ≡ elim (get_by_label name db) [
        | some n ↦ some n
        | none ↦
            if label == name
            then some (create label plugin_name options description certificates db).0
            else none
      ]
unfolding get_by_label create first
get-create name label plugin_name options description certificates db =
    first-append (has_label name) db.rows _

module _ (w : Site) (name : String) (options : List PluginOption) where
  get_or_create-Keeps : (i : ℕ) (db : Db) → Keeps db (get_or_create w name options i db).1
  unfolding get_or_create
  get_or_create-Keeps i db label n h =
      elim (Option-cases (get_by_label (default_label w name i) db)) [
        | inl e ↦ rw (get_or_create, e, get-create label, h) refl
        | inr (m, e) ↦ rw (get_or_create, e) h
      ]

  got :
      (i : ℕ) (db : Db)
      → get_by_label (default_label w name i) (get_or_create w name options i db).1
        ≡ some (get_or_create w name options i db).0
  unfolding get_or_create
  got i db = elim (Option-cases (get_by_label (default_label w name i) db)) [
    | inl e ↦
        rw
          (
            get_or_create,
            e,
            get-create (default_label w name i),
            e,
            beq_refl (default_label w name i),
          )
          refl
    | inr (m, e) ↦ rw (get_or_create, e) e
  ]

  default_notifications-Keeps :
      (is : List ℕ) (db : Db) → Keeps db (default_notifications w name options is db).1
  unfolding default_notifications
  default_notifications-Keeps [] db label n h = h
  default_notifications-Keeps (i ∷ is) db label n h =
      default_notifications-Keeps is (get_or_create w name options i db).1 label n
        (get_or_create-Keeps i db label n h)

  found_again :
      (i : ℕ) (n : Notification) (db : Db)
      → get_by_label (default_label w name i) db ≡ some n
      → get_or_create w name options i db ≡ (n, db)
  unfolding get_or_create
  found_again i n db e = rw (get_or_create, e) refl

  again :
      (is : List ℕ) (db next : Db)
      → Keeps (default_notifications w name options is db).1 next
      → default_notifications w name options is next
        ≡ ((default_notifications w name options is db).0, next)
  unfolding default_notifications
  again [] db next k = refl
  again (i ∷ is) db next k =
      let one = get_or_create w name options i db in
      rw
        (
          found_again i one.0 next (k _ _ (default_notifications-Keeps is one.1 _ _ (got i db))),
          again is one.1 next k,
        )
        refl

-- A second call with the same arguments creates nothing: it returns the notifications of the first.
pub create_default-again :
    (w : Site) (name : String) (recipients : List String) (intervals : Option (List ℕ)) (db : Db)
    → create_default_expiration_notifications w name recipients intervals
        (create_default_expiration_notifications w name recipients intervals db).1
      ≡ create_default_expiration_notifications w name recipients intervals db
unfolding create_default_expiration_notifications
create_default-again w name [] intervals db = refl
create_default-again w name (r ∷ recipients) intervals db =
    again w name (default_options (r ∷ recipients)) (intervals_of w intervals) db _ (λ label n h. h)
