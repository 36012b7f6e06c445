-- ===== src/Notifications/Due.antt =====
-- When a notification is due, lemur/notifications/messaging.py and lemur/plugins/utils.py.
use lemur.Prelude.{
  ℕ, String, ◌≡◌, refl, sym, ap, ◌∙◌, ◌*◌, Bool, true, false, not, ◌&&◌, ◌||◌, Option, none, some,
  List, [], ◌∷◌, ◌==◌, nat_eq, string_eq, if◌then◌else◌, select, any, all, arith, Bool-cases, inl,
  inr, eq_iff,
}
use lemur.Prelude.Result.{Result, ok, err}
use lemur.Prelude.Int.{ℤ, pos, days_between, int_eq}
use lemur.Notifications.{
  Value, number, word, null, read, PluginOption, get_plugin_option, set_plugin_option, Notification,
  Certificate, Trouble, falls_on, skipped, interval_of, in_days, times, decide, due_among,
  needs_notification,
}

-- Whether an option of that name is there.
unfoldable pub has_option : String → List PluginOption → Bool
has_option name options = any (λ o. o.name == name) options

differ : (a b c : String) → (a == b) ≡ false → (a == c) ≡ true → (b == c) ≡ false
differ a b c e f = elim (Bool-cases (b == c)) [
  | inl g ↦
      let same = (eq_iff a c).0 f ∙ sym ((eq_iff b c).0 g) in let yes = (eq_iff a b).1 same in cc
  | inr g ↦ g
]

-- Setting an option is seen under its own name, where there is such an option, and under no other.
pub get-set_plugin_option :
    (name other : String) (v : Value) (options : List PluginOption)
    → get_plugin_option other (set_plugin_option name v options) ≡ (
        if name == other && has_option name options
        then read (some v)
        else get_plugin_option other options)
unfolding get_plugin_option set_plugin_option has_option any
get-set_plugin_option name other v [] = ground arith
get-set_plugin_option name other v (o ∷ options) =
    let ih = get-set_plugin_option name other v options in
    elim (Bool-cases (o.name == name)) [
      | inl e ↦
          let same = ap (λ x. x == other) ((eq_iff o.name name).0 e) in
          elim (Bool-cases (o.name == other)) [
            | inl b ↦ rw (e, b, sym same ∙ b) refl
            | inr b ↦ rw (e, b, sym same ∙ b) (ih ∙ rw (sym same ∙ b) refl)
          ]
      | inr e ↦ elim (Bool-cases (o.name == other)) [
        | inl b ↦
            let other_name : (name == other) ≡ false = differ o.name name other e b in
            rw (e, b, other_name) refl
        | inr b ↦ rw (e, b) ih
      ]
    ]

-- The number of days that an interval stands for: of a unit that is known, and of a number.
unfoldable pub period_of : Result Trouble (Option Value) → Option ℕ
period_of (ok (some (number i))) = some i
period_of (ok (some (word s))) = none
period_of (ok (some null)) = none
period_of (ok none) = none
period_of (err e) = none

-- How many days a unit has.
unfoldable pub unit_days : Option Value → Option ℕ
unit_days (some (word unit)) =
    if unit == "weeks"
    then some 7
    else if unit == "months"
    then some 30
    else if unit == "days"
    then some 1
    else none
unit_days (some (number n)) = none
unit_days (some null) = none
unit_days none = none

unfoldable pub scaled : Option ℕ → Option Value → Option ℕ
scaled (some days) (some (number i)) = some (i * days)
scaled (some days) (some (word s)) = none
scaled (some days) (some null) = none
scaled (some days) none = none
scaled none interval = none

-- The period of a notification in days: as many units as its interval says.
unfoldable pub period : Notification → Option ℕ
period n =
    scaled (unit_days (get_plugin_option "unit" n.options)) (get_plugin_option "interval" n.options)

scaled-in_days :
    (unit interval : Option Value)
    → period_of (in_days unit interval) ≡ scaled (unit_days unit) interval
unfolding period_of in_days times unit_days scaled
scaled-in_days none interval = refl
scaled-in_days (some (number n)) interval = refl
scaled-in_days (some null) interval = refl
scaled-in_days (some (word unit)) none = ground arith
scaled-in_days (some (word unit)) (some (word s)) = ground arith
scaled-in_days (some (word unit)) (some null) = ground arith
scaled-in_days (some (word unit)) (some (number i)) = ground arith

period-interval_of : (n : Notification) → period_of (interval_of n) ≡ period n
unfolding interval_of period
period-interval_of n =
    scaled-in_days (get_plugin_option "unit" n.options) (get_plugin_option "interval" n.options)

-- Whether a notification is active and has options.
unfoldable pub is_active : Notification → Bool
is_active n = n.active && (elim n.options [ [] ↦ false | _ ∷ _ ↦ true ])

active-skipped : (n : Notification) → is_active n ≡ not (skipped n)
unfolding is_active skipped
active-skipped n = ground arith

unfoldable pub well_formed : Notification → Bool
well_formed n = not (is_active n) || (elim (period n) [ some _ ↦ true | none ↦ false ])

-- The description of what is due: active, with options, and so many days ahead as its period has.
unfoldable pub falls_due : ℤ → Option ℕ → Bool
falls_due days (some i) = days == pos i
falls_due days none = false

unfoldable pub is_due : ℤ → Notification → Bool
is_due days n = is_active n && falls_due days (period n)

due_step :
    (days : ℤ) (n : Notification) (interval : Result Trouble (Option Value))
    (rest : List Notification)
    → (elim (period_of interval) [ some _ ↦ true | none ↦ false ]) ≡ true
    → decide days n interval (ok rest)
      ≡ ok (if falls_due days (period_of interval) then n ∷ rest else rest)
unfolding decide falls_on falls_due period_of
due_step days n (ok (some (number i))) rest h = refl
due_step days n (ok (some (word i))) rest h = cc
due_step days n (ok (some null)) rest h = cc
due_step days n (ok none) rest h = cc
due_step days n (err e) rest h = cc

due_among_selects :
    (days : ℤ) (ns : List Notification)
    → all well_formed ns ≡ true
    → due_among days ns ≡ ok (select (is_due days) ns)
unfolding due_among select all well_formed is_due
due_among_selects days [] h = refl
due_among_selects days (n ∷ ns) h =
    let ih = due_among_selects days ns (ground (arith, h)) in
    let active = active-skipped n in
    let agree = period-interval_of n in
    elim (Bool-cases (skipped n)) [
      | inl e ↦ let off : is_active n ≡ false = active ∙ rw e refl in rw (e, off) ih
      | inr e ↦
          let on : is_active n ≡ true = active ∙ rw e refl in
          let has : (elim (period_of (interval_of n)) [ some _ ↦ true | none ↦ false ]) ≡ true =
            rw agree (ground (arith, h, on)) in
          rw (e, on, ih)
            (due_step days n (interval_of n) (select (is_due days) ns) has ∙ rw agree refl)
    ]

-- Where each active notification with options has a period, a number of weeks, months of 30 days or
-- days, `needs_notification` returns those whose period is the number of days left, in their order.
pub needs_notification_selects :
    (now : ℕ) (c : Certificate)
    → all well_formed c.notifications ≡ true
    → needs_notification now c ≡ ok (select (is_due (days_between now c.not_after)) c.notifications)
unfolding needs_notification
needs_notification_selects now c h =
    due_among_selects (days_between now c.not_after) c.notifications h
