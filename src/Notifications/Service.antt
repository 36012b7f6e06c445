-- ===== src/Notifications/Service.antt =====
-- lemur/notifications/service.py: the table of notifications, and the ones that an owner gets.
pub mod Alerts
pub mod Defaults
pub mod Linked
use lemur.Prelude.{
  ℕ, String, ◌+◌, Bool, true, false, not, Option, none, some, List, [], ◌∷◌, ◌++◌, ◌==◌, nat_eq,
  string_eq, select, contains,
}
use lemur.Prelude.Table.{first, find, put, drop}
use lemur.Prelude.Text.{join}
use lemur.Notifications.{number, word, PluginOption}

-- A row, with the numbers of its certificates.
pub record Notification : Type 0 where
  pub id : ℕ
  pub label : String
  pub description : String
  pub options : List PluginOption
  pub active : Bool
  pub plugin_name : String
  pub certificates : List ℕ

-- `str(number)`, and the configuration.
pub record Site : Type 0 where
  pub str : ℕ → String
  pub default_intervals : Option (List ℕ)
  pub default_plugin : Option String

-- The table, with the next number of its sequence, and the labels in the audit log.
pub record Db : Type 0 where
  pub rows : List Notification
  pub next_id : ℕ
  pub audit_log : List String

abbrev pub notification_id : Notification → ℕ
notification_id n = n.id

abbrev pub has_label : String → Notification → Bool
has_label label n = n.label == label

unfoldable pub get : ℕ → Db → Option Notification
get i db = find notification_id i db.rows

unfoldable pub get_by_label : String → Db → Option Notification
get_by_label label db = first (has_label label) db.rows

-- The row in the order of the parameters of `create`.
abbrev new :
    (id : ℕ)
    → (label plugin_name : String) → List PluginOption
    → (description : String) → List ℕ
    → Notification
new id label plugin_name options description certificates = record {
  id = id;
  label = label;
  description = description;
  options = options;
  active = true;
  plugin_name = plugin_name;
  certificates = certificates;
}

unfoldable pub create :
    (label plugin_name : String)
    → List PluginOption
    → (description : String) → List ℕ
    → Db
    → Notification × Db
create label plugin_name options description certificates db =
    let n = new db.next_id label plugin_name options description certificates in
    (n, record db { rows = db.rows ++ (n ∷ []); next_id = db.next_id + 1 })

-- `",".join(recipients)`
unfoldable pub comma_separated : List String → String
comma_separated [] = ""
comma_separated (r ∷ []) = r
comma_separated (r ∷ (s ∷ recipients)) = join (r ∷ "," ∷ comma_separated (s ∷ recipients) ∷ [])

-- The options of the unit and the recipients, without the texts that only a form shows.
unfoldable pub default_options : List String → List PluginOption
default_options recipients =
    record { name = "unit"; value = some (word "days"); default = none }
    ∷ record {
      name = "recipients";
      value = some (word (comma_separated recipients));
      default = none;
    }
    ∷ []

abbrev pub interval_option : ℕ → PluginOption
interval_option i = record { name = "interval"; value = some (number i); default = none }

unfoldable pub default_label : Site → String → ℕ → String
default_label w name i = join (name ∷ "_" ∷ w.str i ∷ "_DAY" ∷ [])

abbrev plugin_of : Option String → String
plugin_of none = "email-notification"
plugin_of (some plugin) = plugin

-- One round of the loop: the notification of that label, which is created where it is missing.
unfoldable pub get_or_create :
    Site → (name : String) → List PluginOption → ℕ → Db → Notification × Db
get_or_create w name options i db = elim (get_by_label (default_label w name i) db) [
  | some n ↦ (n, db)
  | none ↦
      create (default_label w name i) (plugin_of w.default_plugin) (interval_option i ∷ options)
        (join ("Default " ∷ w.str i ∷ " day expiration notification" ∷ [])) [] db
]

unfoldable pub default_notifications :
    Site → (name : String) → List PluginOption → List ℕ → Db → List Notification × Db
default_notifications w name options [] db = ([], db)
default_notifications w name options (i ∷ intervals) db =
    let (n, next) = get_or_create w name options i db in
    let (notifications, last) = default_notifications w name options intervals next in
    (n ∷ notifications, last)

-- The intervals that are given, or those of the configuration.
unfoldable pub intervals_of : Site → Option (List ℕ) → List ℕ
intervals_of w (some intervals) = intervals
intervals_of w none = elim w.default_intervals [
  | some intervals ↦ intervals
  | none ↦ 30 ∷ 15 ∷ 2 ∷ []
]

unfoldable pub create_default_expiration_notifications :
    Site
    → (name : String) → (recipients : List String) → Option (List ℕ)
    → Db
    → List Notification × Db
create_default_expiration_notifications w name [] intervals db = ([], db)
create_default_expiration_notifications w name (r ∷ recipients) intervals db =
    default_notifications w name (default_options (r ∷ recipients)) (intervals_of w intervals) db

-- None is the exception for a number that is in no row.
unfoldable pub update :
    ℕ
    → (label plugin_name : String) → List PluginOption
    → (description : String) → (active : Bool) → (added_certificates removed_certificates : List ℕ)
    → Db
    → Option Db
update i label plugin_name options description active added removed db = elim (get i db) [
  | none ↦ none
  | some n ↦ some (record db {
    rows =
        put notification_id
          (record n {
            label = label;
            plugin_name = plugin_name;
            options = options;
            description = description;
            active = active;
            certificates = select (λ c. not (contains c removed)) (n.certificates ++ added);
          })
          db.rows;
  })
]

unfoldable pub delete : ℕ → Db → Db
delete i db = elim (get i db) [
  | none ↦ db
  | some n ↦ record db {
    rows = drop notification_id i db.rows;
    audit_log = db.audit_log ++ (n.label ∷ []);
  }
]
