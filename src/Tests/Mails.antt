-- ===== src/Tests/Mails.antt =====
-- Examples for the notifications.
use lemur.Prelude.{
  ◌≡◌, ℕ, String, ◌==◌, if◌then◌else◌, any, refl, ◌+◌, ◌*◌, true, false, none, some, List, [], ◌∷◌,
  all, select, contains, nat_eq, string_eq,
}
use lemur.Prelude.Result.{ok}
use lemur.Prelude.Int.{day, days_between, int_eq}
use lemur.Notifications.{
  number, word, PluginOption, get_plugin_option, Notification, Certificate, needs_notification,
}
use lemur.Notifications.Service as Service
use lemur.Notifications.Service.Linked.{is_sent_for, after, update-is_sent_for}
use lemur.Notifications.Service.{
  get, update, Site, Db, create_default_expiration_notifications, intervals_of, get_by_label,
  default_label,
}
use lemur.Notifications.Service.Defaults.{create_default-again}
use lemur.Notifications.Service.Alerts.{are_new, notified, due_periods, defaults_fall_due}
use lemur.Prelude.Table.{first, find}
use lemur.Notifications.Due.{
  well_formed, is_due, falls_due, is_active, period, unit_days, scaled, needs_notification_selects,
}

abbrev weeks : List PluginOption
weeks =
    record { name = "interval"; value = some (number 2); default = none }
    ∷ record { name = "unit"; value = some (word "weeks"); default = none }
    ∷ []

abbrev two_weeks : Notification
two_weeks = record {
  id = 1;
  label = "TWO_WEEKS";
  active = true;
  plugin = "slack-notification";
  options = weeks;
}

abbrev certificate : Certificate
certificate = record {
  id = 1;
  name = "www.example.com";
  owner = "team@example.com";
  not_after = 1000 + 14 * day;
  notify = true;
  revoked = false;
  root_authority_id = some 1;
  authority_id = none;
  notifications = two_weeks ∷ [];
}

needs_notification_selects_example : needs_notification 1000 certificate ≡ ok (two_weeks ∷ [])
unfolding all well_formed is_active get_plugin_option period unit_days scaled select is_due
    falls_due days_between
needs_notification_selects_example = needs_notification_selects 1000 certificate refl

-- Fourteen and two are the only numbers that are printed.
abbrev printed : ℕ → String
printed i = if i == 14 then "14" else "2"

abbrev site : Site
site = record { str = printed; default_intervals = some (14 ∷ 2 ∷ []); default_plugin = none }

abbrev no_rows : Db
no_rows = record { rows = []; next_id = 1; audit_log = [] }

defaults_fall_due_example :
    due_periods (
      needs_notification 1000 (
        notified certificate
          (create_default_expiration_notifications site "DEFAULT"
            ("team@example.com" ∷ [])
            none
            no_rows).0))
    ≡ ok (some 14 ∷ [])
unfolding are_new intervals_of get_by_label first default_label any select days_between
defaults_fall_due_example =
    defaults_fall_due site "DEFAULT" "team@example.com" [] none no_rows 1000 certificate refl

create_default-again_example :
    create_default_expiration_notifications site "DEFAULT"
      ("team@example.com" ∷ [])
      none
      (create_default_expiration_notifications site "DEFAULT"
        ("team@example.com" ∷ [])
        none
        no_rows).1
    ≡ create_default_expiration_notifications site "DEFAULT" ("team@example.com" ∷ []) none no_rows
create_default-again_example =
    create_default-again site "DEFAULT" ("team@example.com" ∷ []) none no_rows

abbrev row : ℕ → Service.Notification
row i = record {
  id = i;
  label = "TWO_WEEKS";
  description = "";
  options = weeks;
  active = true;
  plugin_name = "email-notification";
  certificates = 4 ∷ 5 ∷ [];
}

abbrev two_rows : Db
two_rows = record { rows = row 1 ∷ row 2 ∷ []; next_id = 3; audit_log = [] }

update-is_sent_for_example :
    (is_sent_for 6
        (after (update 1 "OTHER" "slack-notification" weeks "" true (6 ∷ []) (5 ∷ []) two_rows) 1)
      ≡ true)
    × ((◌==◌ {A = ℕ} 1 2) ≡ false
        → after (update 1 "OTHER" "slack-notification" weeks "" true (6 ∷ []) (5 ∷ []) two_rows) 2
          ≡ get 2 two_rows)
unfolding is_sent_for get find first contains
update-is_sent_for_example =
    update-is_sent_for 1 2 6 "OTHER" "slack-notification" weeks "" true (6 ∷ []) (5 ∷ []) two_rows
      refl
