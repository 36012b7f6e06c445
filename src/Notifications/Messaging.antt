-- ===== src/Notifications/Messaging.antt =====
-- The senders of lemur/notifications/messaging.py. A plugin's `send` is a parameter, false where it
-- raises, which may depend on how many messages went before. Of a message's data the numbers of its
-- certificates are kept; what is logged and measured is left out.
use lemur.Prelude.{
  ℕ, String, ◌+◌, Bool, List, [], ◌∷◌, ◌++◌, ◌==◌, string_eq, if◌then◌else◌, contains, any, map,
  length, leb,
}
use lemur.Prelude.Int.{ℤ}
use lemur.Notifications.{Notification, Certificate, PluginOption}
use lemur.Notifications.Groups.{LabelGroup}

pub record Message : Type 0 where
  pub event_type : String
  pub certificates : List ℕ
  pub targets : List String
  pub plugin : String

-- `security_email` is `LEMUR_SECURITY_TEAM_EMAIL`, `default_plugin` the default notification plugin.
pub record Env : Type 0 where
  pub security_email : List String
  pub default_plugin : String
  pub excluded_destinations : List String
  pub get_recipients : (plugin : String) → List PluginOption → List String → List String
  pub send : ℕ → Message → Bool

-- The counters of a run, and the messages so far, the last one first.
pub record Run : Type 0 where
  pub success : ℕ
  pub failure : ℕ
  pub sent : List Message

-- Whether the next message is delivered.
unfoldable pub delivered : Env → Run → Message → Bool
delivered env run m = env.send (length run.sent) m

-- A message is sent, and counted by one of the two `+=`.
unfoldable pub count : Env → ℕ → Message → Run → Run
count env n m run =
    let ok = delivered env run m in
    record {
      success = if ok then run.success + n else run.success;
      failure = if ok then run.failure else run.failure + n;
      sent = m ∷ run.sent;
    }

abbrev pub default_message : Env → String → List ℕ → List String → Message
default_message env event ids targets = record {
  event_type = event;
  certificates = ids;
  targets = targets;
  plugin = env.default_plugin;
}

abbrev pub certificate_ids : List (Notification × Certificate) → List ℕ
certificate_ids pairs = map (λ (n, c). c.id) pairs

-- The counters after the message of a plugin other than email.
unfoldable pub set_to_one : Run → Run
set_to_one run =
    let any_success = leb 1 run.success in
    record run { success = if any_success then 1 else 0; failure = if any_success then 0 else 1 }

-- The security team is no recipient of its own where its emails are disabled.
abbrev pub team : Env → Bool → List String
team env disabled = if disabled then [] else env.security_email

-- What is sent for one notification of an owner. No group is empty.
unfoldable pub send_group :
    Env
    → (disabled : List String) → (disable_team : Bool) → (owner : String) → LabelGroup
    → Run
    → Run
send_group env disabled disable_team owner (label, []) run = run
send_group env disabled disable_team owner (label, (n, c) ∷ pairs) run =
    let ids = certificate_ids ((n, c) ∷ pairs) in
    let recipients = env.get_recipients n.plugin n.options (team env disable_team ++ owner ∷ []) in
    let m : Message = record {
      event_type = "expiration";
      certificates = ids;
      targets = recipients;
      plugin = n.plugin;
    } in
    let run1 = count env (length recipients) m run in
    let run2 = set_to_one run1 in
    if contains n.plugin disabled
    then run
    else if n.plugin == "email-notification"
    then run1
    else if contains "email-notification" disabled
    then run2
    else count env (length recipients) (default_message env "expiration" ids recipients) run2

unfoldable pub send_groups :
    Env → List String → Bool → (owner : String) → List LabelGroup → Run → Run
send_groups env disabled disable_team owner [] run = run
send_groups env disabled disable_team owner (g ∷ groups) run =
    send_groups env disabled disable_team owner groups
      (send_group env disabled disable_team owner g run)

unfoldable pub send_expiration_notifications :
    Env → List String → Bool → List (String × List LabelGroup) → Run → Run
send_expiration_notifications env disabled disable_team [] run = run
send_expiration_notifications env disabled disable_team ((owner, groups) ∷ owners) run =
    send_expiration_notifications env disabled disable_team owners
      (send_groups env disabled disable_team owner groups run)

-- The counters of the authorities' messages are set, not raised.
unfoldable pub assign : Env → ℕ → Message → Run → Run
assign env n m run =
    let ok = delivered env run m in
    record {
      success = if ok then n else run.success;
      failure = if ok then run.failure else n;
      sent = m ∷ run.sent;
    }

unfoldable pub send_intervals : Env → (owner : String) → List (ℤ × List Certificate) → Run → Run
send_intervals env owner [] run = run
send_intervals env owner ((interval, certs) ∷ intervals) run =
    let recipients = env.security_email ++ owner ∷ [] in
    send_intervals env owner intervals (
      assign env (length recipients)
        (default_message env "authority_expiration" (map (λ (c : Certificate). c.id) certs)
          recipients)
        run)

unfoldable pub send_authority_expiration_notifications :
    Env → List (String × List (ℤ × List Certificate)) → Run → Run
send_authority_expiration_notifications env [] run = run
send_authority_expiration_notifications env ((owner, intervals) ∷ owners) run =
    send_authority_expiration_notifications env owners (send_intervals env owner intervals run)

-- Each owner of deployed certificates that expire is one message to the security team.
unfoldable pub send_expiring_deployed_certificate_notifications :
    Env → List (String × List Certificate) → Run → Run
send_expiring_deployed_certificate_notifications env [] run = run
send_expiring_deployed_certificate_notifications env ((owner, certs) ∷ owners) run =
    send_expiring_deployed_certificate_notifications env owners (
      count env 1
        (default_message env "expiring_deployed_certificate" (map (λ (c : Certificate). c.id) certs)
          env.security_email)
        run)

-- `send_revocation_notification` and `send_rotation_notification`, by their event.
unfoldable pub send_to_owner : Env → (event : String) → Certificate → Run → Run
send_to_owner env event c run = record run {
  sent = default_message env event (c.id ∷ []) (c.owner ∷ []) ∷ run.sent;
}

-- The endpoints and destinations are those of the old certificate, by their labels.
unfoldable pub send_reissue_no_endpoints_notification :
    Env → (endpoints destinations : List String) → (new : Certificate) → Run → Run
send_reissue_no_endpoints_notification env [] destinations c run =
    if any (λ d. contains d env.excluded_destinations) destinations then run else record run {
      sent =
          default_message env "reissued_with_no_endpoints" (c.id ∷ [])
            (c.owner ∷ env.security_email)
          ∷ run.sent;
    }
send_reissue_no_endpoints_notification env (e ∷ endpoints) destinations c run = run

unfoldable pub send_pending_failure_notification :
    Env → (pending : ℕ) → (owner : String) → (notify_owner notify_security : Bool) → Run → Run
send_pending_failure_notification env pending owner notify_owner notify_security run =
    let to_owner : List String = if notify_owner then owner ∷ [] else [] in
    let to_security : List String = if notify_security then env.security_email else [] in
    record run {
      sent = default_message env "failed" (pending ∷ []) (to_owner ++ to_security) ∷ run.sent;
    }
