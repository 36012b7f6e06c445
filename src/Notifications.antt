-- ===== src/Notifications.antt =====
-- lemur/notifications/messaging.py, with the plugin options of lemur/plugins/utils.py: which
-- notifications are due for a certificate.
pub mod Due
pub mod Groups
pub mod Grouping
pub mod Messaging
pub mod Counts
pub mod Service
use lemur.Prelude.{
  ℕ, String, ◌*◌, Bool, true, false, not, ◌&&◌, ◌||◌, Option, none, some, List, [], ◌∷◌, ◌==◌,
  nat_eq, string_eq, if◌then◌else◌,
}
use lemur.Prelude.Result.{Result, ok, err}
use lemur.Prelude.Int.{ℤ, pos, days_between, int_eq}

-- What an option of a plugin is set to.
pub data Value : Type 0 where
  number : ℕ → Value
  word : String → Value
  null : Value

-- A dictionary of a plugin's options: `value` and `default` are none where the key is missing.
pub record PluginOption : Type 0 where
  pub name : String
  pub value : Option Value
  pub default : Option Value

-- None is also what a null is read as.
abbrev pub read : Option Value → Option Value
read none = none
read (some null) = none
read (some (number i)) = some (number i)
read (some (word s)) = some (word s)

unfoldable pub get_plugin_option : String → List PluginOption → Option Value
get_plugin_option name [] = none
get_plugin_option name (o ∷ options) =
    let rest = get_plugin_option name options in
    if o.name == name
    then (elim o.value [ some v ↦ read (some v) | none ↦ read o.default ])
    else rest

unfoldable pub set_plugin_option : String → Value → List PluginOption → List PluginOption
set_plugin_option name value [] = []
set_plugin_option name value (o ∷ options) =
    record o { value = if o.name == name then some value else o.value }
    ∷ set_plugin_option name value options

pub record Notification : Type 0 where
  pub id : ℕ
  pub label : String
  pub active : Bool
  pub plugin : String
  pub options : List PluginOption

-- A certificate, with the columns that the notifications read. Moments are in seconds.
pub record Certificate : Type 0 where
  pub id : ℕ
  pub name : String
  pub owner : String
  pub not_after : ℕ
  pub notify : Bool
  pub revoked : Bool
  pub root_authority_id : Option ℕ
  pub authority_id : Option ℕ
  pub notifications : List Notification

-- `invalid_unit` is the exception of `needs_notification`, `type_error` Python's for `None * 7`.
pub data Trouble : Type 0 where
  invalid_unit type_error : Trouble

-- `interval *= n`. A text is repeated, and stays a text.
unfoldable pub times : ℕ → Option Value → Result Trouble (Option Value)
times n none = err type_error
times n (some (number i)) = ok (some (number (i * n)))
times n (some (word s)) = ok (some (word s))
times n (some null) = err type_error

unfoldable pub in_days : (unit interval : Option Value) → Result Trouble (Option Value)
in_days (some (word unit)) interval =
    if unit == "weeks"
    then times 7 interval
    else if unit == "months"
    then times 30 interval
    else if unit == "days"
    then ok interval
    else err invalid_unit
in_days (some (number n)) interval = err invalid_unit
in_days (some null) interval = err invalid_unit
in_days none interval = err invalid_unit

-- `days == interval`
unfoldable pub falls_on : ℤ → Option Value → Bool
falls_on days (some (number i)) = days == pos i
falls_on days (some (word s)) = false
falls_on days (some null) = false
falls_on days none = false

-- `not notification.active or not notification.options`
unfoldable pub skipped : Notification → Bool
skipped n = not n.active || (elim n.options [ [] ↦ true | _ ∷ _ ↦ false ])

unfoldable pub interval_of : Notification → Result Trouble (Option Value)
interval_of n =
    in_days (get_plugin_option "unit" n.options) (get_plugin_option "interval" n.options)

-- One round of the loop, in front of the rounds that follow it.
unfoldable pub decide :
    ℤ
    → Notification
    → Result Trouble (Option Value)
    → Result Trouble (List Notification)
    → Result Trouble (List Notification)
decide days n (err e) rest = err e
decide days n (ok interval) (err e) = err e
decide days n (ok interval) (ok due) = ok (if falls_on days interval then n ∷ due else due)

unfoldable pub due_among : ℤ → List Notification → Result Trouble (List Notification)
due_among days [] = ok []
due_among days (n ∷ notifications) =
    let rest = due_among days notifications in
    if skipped n then rest else decide days n (interval_of n) rest

unfoldable pub needs_notification : (now : ℕ) → Certificate → Result Trouble (List Notification)
needs_notification now c = due_among (days_between now c.not_after) c.notifications
