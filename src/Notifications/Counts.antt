-- ===== src/Notifications/Counts.antt =====
-- What the counters of lemur/notifications/messaging.py say about the messages of a run.
use lemur.Prelude.{
  ℕ, String, ◌≡◌, refl, ap, ◌∙◌, ◌+◌, ◌≤◌, Bool, true, false, List, [], ◌∷◌, ◌++◌, ◌==◌, string_eq,
  contains, length, map, arith, Bool-cases, inl, inr, length-append,
}
use lemur.Prelude.Int.{ℤ}
use lemur.Notifications.{Certificate, Notification}
use lemur.Notifications.Groups.{LabelGroup}
use lemur.Notifications.Messaging.{
  Env, Run, Message, delivered, count, assign, default_message, set_to_one, send_group, send_groups,
  send_intervals, send_authority_expiration_notifications,
  send_expiring_deployed_certificate_notifications,
}

abbrev pub total : Run → ℕ
total run = run.success + run.failure

count-total :
    (env : Env) (n : ℕ) (m : Message) (run : Run) → total (count env n m run) ≡ total run + n
unfolding count
count-total env n m run = ground arith

-- The two counters of a run for deployed certificates together count the owners.
pub deployed_counts_owners :
    (env : Env) (owners : List (String × List Certificate)) (run : Run)
    → total (send_expiring_deployed_certificate_notifications env owners run)
      ≡ total run + length owners
unfolding send_expiring_deployed_certificate_notifications
deployed_counts_owners env [] run = omega arith
deployed_counts_owners env ((owner, certs) ∷ owners) run =
    let m =
      default_message env "expiring_deployed_certificate" (map (λ (c : Certificate). c.id) certs)
        env.security_email in
    let e = count-total env 1 m run in
    let rest = deployed_counts_owners env owners (count env 1 m run) in omega (arith, e, rest)

-- Whether neither counter is above the bound.
unfoldable pub Within : ℕ → Run → Type 0
Within bound run = (run.success ≤ bound) × (run.failure ≤ bound)

abbrev pub one_message : Env → ℕ
one_message env = length env.security_email + 1

Within-assign :
    (env : Env) (owner : String) (m : Message) (run : Run)
    → Within (one_message env) run
    → Within (one_message env) (assign env (length (env.security_email ++ owner ∷ [])) m run)
unfolding assign Within
Within-assign env owner m run (s, f) =
    let e = length-append env.security_email (owner ∷ []) in
    elim (Bool-cases (delivered env run m)) [
      | inl d ↦ rw d (omega (arith, e), f)
      | inr d ↦ rw d (s, omega (arith, e))
    ]

Within-send_intervals :
    (env : Env) (owner : String) (intervals : List (ℤ × List Certificate)) (run : Run)
    → Within (one_message env) run
    → Within (one_message env) (send_intervals env owner intervals run)
unfolding send_intervals
Within-send_intervals env owner [] run w = w
Within-send_intervals env owner ((interval, certs) ∷ intervals) run w =
    Within-send_intervals env owner intervals _ (Within-assign env owner _ run w)

-- In a run for authorities, however many messages it sends, no counter that starts within the
-- number of recipients of one message comes to more than it.
pub authority_counts_one_message :
    (env : Env) (owners : List (String × List (ℤ × List Certificate))) (run : Run)
    → Within (one_message env) run
    → Within (one_message env) (send_authority_expiration_notifications env owners run)
unfolding send_authority_expiration_notifications
authority_counts_one_message env [] run w = w
authority_counts_one_message env ((owner, intervals) ∷ owners) run w =
    authority_counts_one_message env owners (send_intervals env owner intervals run)
      (Within-send_intervals env owner intervals run w)

set_to_one-total : (run : Run) → total (set_to_one run) ≡ 1
unfolding set_to_one
set_to_one-total run = ground arith

send_groups-append :
    (env : Env) (disabled : List String) (team : Bool) (owner : String) (xs ys : List LabelGroup)
    (run : Run)
    → send_groups env disabled team owner (xs ++ ys) run
      ≡ send_groups env disabled team owner ys (send_groups env disabled team owner xs run)
unfolding send_groups
send_groups-append env disabled team owner [] ys run = refl
send_groups-append env disabled team owner (x ∷ xs) ys run =
    send_groups-append env disabled team owner xs ys (send_group env disabled team owner x run)

-- Where the email plugin is disabled, and the last group of an owner goes to another plugin that is
-- not, the two counters together say one, whatever the groups before it were.
pub expiration_counts_reset :
    (env : Env) (disabled : List String) (team : Bool) (owner label : String)
    (groups : List LabelGroup) (n : Notification) (c : Certificate)
    (pairs : List (Notification × Certificate)) (run : Run)
    → contains "email-notification" disabled ≡ true
    → contains n.plugin disabled ≡ false
    → (n.plugin == "email-notification") ≡ false
    → total (send_groups env disabled team owner (groups ++ (label, (n, c) ∷ pairs) ∷ []) run) ≡ 1
unfolding send_groups send_group
expiration_counts_reset env disabled team owner label groups n c pairs run off on other =
    ap total (send_groups-append env disabled team owner groups _ run)
    ∙ rw (on, other, off) (set_to_one-total _)
