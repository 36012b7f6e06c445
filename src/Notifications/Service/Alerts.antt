-- ===== src/Notifications/Service/Alerts.antt =====
-- When the default notifications of an owner are due: lemur/notifications/service.py with
-- lemur/notifications/messaging.py.
use lemur.Prelude.{
  ℕ, String, ◌≡◌, refl, ap, ◌∙◌, Bool, true, false, not, ◌&&◌, Option, none, some, List, [], ◌∷◌,
  ◌==◌, nat_eq, string_eq, arith, Bool-cases, inl, inr, select, all, any, map,
}
use lemur.Prelude.Result.{Result, ok, err}
use lemur.Prelude.Int.{ℤ, pos, int_eq, days_between}
use lemur.Notifications as Mail
use lemur.Notifications.{PluginOption, Certificate, get_plugin_option, needs_notification}
use lemur.Notifications.Due.{
  is_active, is_due, falls_due, period, unit_days, scaled, well_formed, needs_notification_selects,
}
use lemur.Notifications.Service.{
  Notification, Site, Db, get_by_label, create, default_options, default_label, get_or_create,
  default_notifications, intervals_of, create_default_expiration_notifications,
}
use lemur.Notifications.Service.Defaults.{get-create}

-- A row as the senders read it.
abbrev pub seen : Notification → Mail.Notification
seen n = record {
  id = n.id;
  label = n.label;
  active = n.active;
  plugin = n.plugin_name;
  options = n.options;
}

abbrev is_none : {A : Type 0} → Option A → Bool
is_none none = true
is_none (some a) = false

-- No row has one of the labels, and no two of the labels are the same.
unfoldable pub are_new : Site → (name : String) → List ℕ → Db → Bool
are_new w name [] db = true
are_new w name (i ∷ intervals) db =
    is_none (get_by_label (default_label w name i) db)
    && not (any (λ j. default_label w name i == default_label w name j) intervals)
    && are_new w name intervals db

missing : {A : Type 0} (o : Option A) → is_none o ≡ true → o ≡ none
missing none h = refl
missing (some a) h = cc

module _ (w : Site) (name : String) where
  still_missing :
      (options : List PluginOption) (i j : ℕ) (db : Db)
      → get_by_label (default_label w name i) db ≡ none
      → (default_label w name i == default_label w name j) ≡ false
      → get_by_label (default_label w name j) db ≡ none
      → get_by_label (default_label w name j) (get_or_create w name options i db).1 ≡ none
  unfolding get_or_create
  still_missing options i j db e d h =
      rw (get_or_create, e, get-create (default_label w name j) (default_label w name i), h, d) refl

  are_new-get_or_create :
      (options : List PluginOption) (i : ℕ) (is : List ℕ) (db : Db)
      → get_by_label (default_label w name i) db ≡ none
      → any (λ j. default_label w name i == default_label w name j) is ≡ false
      → are_new w name is db ≡ true
      → are_new w name is (get_or_create w name options i db).1 ≡ true
  unfolding are_new any
  are_new-get_or_create options i [] db e d h = refl
  are_new-get_or_create options i (j ∷ is) db e d h =
      let rest = are_new-get_or_create options i is db e (ground (arith, d)) (ground (arith, h)) in
      let gone =
        still_missing options i j db e (ground (arith, d))
          (missing (get_by_label (default_label w name j) db) (ground (arith, h))) in
      rw gone (ground (arith, rest, h))

-- What is made of an interval, as the senders read it: active, due after so many days.
abbrev pub IsAlert : ℕ → Notification → Type 0
IsAlert i n = (is_active (seen n) ≡ true) × (period (seen n) ≡ some i)

made :
    (w : Site) (name : String) (recipients : List String) (i : ℕ) (db : Db)
    → get_by_label (default_label w name i) db ≡ none
    → IsAlert i (get_or_create w name (default_options recipients) i db).0
unfolding get_or_create create default_options is_active period get_plugin_option unit_days scaled
made w name recipients i db e = rw (get_or_create, e) (refl, ap some (omega arith))

-- The period of each notification, and whether each is active.
abbrev pub periods : List Notification → List (Option ℕ)
periods ns = map (λ n. period (seen n)) ns

module _ (w : Site) (name : String) (recipients : List String) where
  made_all :
      (is : List ℕ) (db : Db)
      → are_new w name is db ≡ true
      → (periods (default_notifications w name (default_options recipients) is db).0 ≡ map some is)
        × (all is_active
              (map seen (default_notifications w name (default_options recipients) is db).0)
            ≡ true)
  unfolding default_notifications are_new all
  made_all [] db h = (refl, refl)
  made_all (i ∷ is) db h =
      let e = missing (get_by_label (default_label w name i) db) (ground (arith, h)) in
      let one = made w name recipients i db e in
      let rest = made_all is (get_or_create w name (default_options recipients) i db).1 (
        are_new-get_or_create w name (default_options recipients) i is db e (ground (arith, h))
          (ground (arith, h))) in
      (rw (one.1, rest.0) refl, rw (one.0, rest.1) refl)

-- The periods of the notifications that are due.
abbrev pub due_periods :
    Result Mail.Trouble (List Mail.Notification) → Result Mail.Trouble (List (Option ℕ))
due_periods (err e) = err e
due_periods (ok due) = ok (map period due)

-- Where active notifications have periods, they are well formed, and due where the period is up.
module _ (days : ℤ) where
  periods-well_formed :
      (is : List ℕ) (ns : List Mail.Notification)
      → map period ns ≡ map some is
      → all well_formed ns ≡ true
  unfolding all well_formed
  periods-well_formed is [] h = refl
  periods-well_formed [] (n ∷ ns) h = cc
  periods-well_formed (i ∷ is) (n ∷ ns) h =
      let p : period n ≡ some i = cc in
      let rest = periods-well_formed is ns cc in rw (p, rest) (ground arith)

  periods-select :
      (is : List ℕ) (ns : List Mail.Notification)
      → map period ns ≡ map some is
      → all is_active ns ≡ true
      → map period (select (is_due days) ns) ≡ map some (select (λ i. days == pos i) is)
  unfolding select is_due all falls_due
  periods-select [] [] h k = refl
  periods-select (i ∷ is) [] h k = cc
  periods-select [] (n ∷ ns) h k = cc
  periods-select (i ∷ is) (n ∷ ns) h k =
      let p : period n ≡ some i = cc in
      let a : is_active n ≡ true = ground (arith, k) in
      let active : all is_active ns ≡ true = ground (arith, k) in
      let rest = periods-select is ns (cc) active in
      elim (Bool-cases (days == pos i)) [
        | inl e ↦ rw (a, p, e, p, rest) refl
        | inr e ↦ rw (a, p, e) rest
      ]

map-seen : (ns : List Notification) → map period (map seen ns) ≡ periods ns
map-seen [] = refl
map-seen (n ∷ ns) = rw (map-seen ns) refl

-- A certificate that has those notifications.
abbrev pub notified : Certificate → List Notification → Certificate
notified c ns = record c { notifications = map seen ns }

-- The default notifications of a name whose labels are new alert exactly at the intervals: for a
-- certificate that has them, `needs_notification` raises nothing and returns one for each interval
-- that is the number of days left, with the interval as its period in days.
pub defaults_fall_due :
    (w : Site) (name recipient : String) (recipients : List String) (intervals : Option (List ℕ))
    (db : Db) (now : ℕ) (c : Certificate)
    → are_new w name (intervals_of w intervals) db ≡ true
    → due_periods (
        needs_notification now (
          notified c
            (create_default_expiration_notifications w name
              (recipient ∷ recipients)
              intervals
              db).0))
      ≡ ok (
          map some (select (λ i. days_between now c.not_after == pos i) (intervals_of w intervals)))
unfolding create_default_expiration_notifications
defaults_fall_due w name recipient recipients intervals db now c h =
    let is = intervals_of w intervals in
    let ns = (default_notifications w name (default_options (recipient ∷ recipients)) is db).0 in
    let days = days_between now c.not_after in
    let (p, a) = made_all w name (recipient ∷ recipients) is db h in
    let q = map-seen ns ∙ p in
    rw
      (
        needs_notification_selects now (notified c ns)
            (periods-well_formed days is (map seen ns) q),
        periods-select days is (map seen ns) q a,
      )
      refl
