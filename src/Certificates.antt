-- ===== src/Certificates.antt =====
-- lemur/certificates/models.py and lemur/certificates/service.py: a certificate, its destinations, and
-- the operations on it that revoke it, change its owner and take it off its destinations. Destinations
-- and notifications are named by their labels and roles by their names; the labels of
-- destinations are taken to differ.
pub mod Views
pub mod Revocation
pub mod Access
pub mod Lifecycle
pub mod Edits
pub mod Duplicates
use lemur.Prelude.{
  ℕ, String, Bool, true, false, not, ◌&&◌, ◌||◌, ◌↔◌, ◌≡◌, Option, none, some, List, [], ◌∷◌, ◌++◌,
  ◌==◌, Eq, nat_eq, string_eq, if◌then◌else◌, select, contains, leb, arith, eq_iff,
}
use lemur.Prelude.Result.{Result, ok, err}
use lemur.Prelude.Table.{find, put, modify}
use lemur.Prelude.Text.{concat, join, starts, upper, before}
use lemur.Notifications.{Value, number, word, null, PluginOption, get_plugin_option}

pub record Destination : Type 0 where
  pub label : String
  pub plugin_name : String
  pub options : List PluginOption

-- `user` is the creator, `authority` the name of the issuer's plugin.
pub record Certificate : Type 0 where
  pub id : ℕ
  pub name : String
  pub owner : String
  pub user : ℕ
  pub authority : String
  pub has_private_key : Bool
  pub notify : Bool
  pub rotation : Bool
  pub status : Option String
  pub deleted : Bool
  pub not_after : ℕ
  pub roles : List String
  pub notifications : List String
  pub destinations : List Destination
  pub replaces : List ℕ
  pub endpoints : List String

-- An exception of an issuer's plugin: `NotImplementedError`, or another one with its text.
pub data Failure : Type 0 where
  not_implemented : Failure
  failed : String → Failure

-- What the plugins and the mail server answer. `clean` and `upload` are given the certificate's number
-- and the destination, and return the text of the exception where they raise; `has_clean` is
-- `hasattr(plugin, "clean")`; `attached` are the names that `get_endpoint_certificate_names` returns.
pub record Plugins : Type 0 where
  pub has_clean : String → Bool
  pub clean : ℕ → Destination → Option String
  pub upload : ℕ → Destination → Option String
  pub requires_key : String → Bool
  pub allow_multiple_per_account : String → Bool
  pub revoke_certificate : String → ℕ → Option Failure
  pub deactivate_certificate : String → ℕ → Option Failure
  pub attached : String → List String
  pub sends : ℕ → Bool

-- The table, what left and what entered a destination, the notices of revocation, the issuers' calls,
-- and the log, each with the certificate's number.
pub record Db : Type 0 where
  pub certificates : List Certificate
  pub cleaned : List (ℕ × String)
  pub uploaded : List (ℕ × String)
  pub mails : List ℕ
  pub calls : List (String × ℕ)
  pub logs : List (String × ℕ)

abbrev pub certificate_id : Certificate → ℕ
certificate_id c = c.id

abbrev pub get : ℕ → Db → Option Certificate
get i db = find certificate_id i db.certificates

-- `database.update(certificate)`
abbrev pub save : Certificate → Db → Db
save c db = record db { certificates = put certificate_id c db.certificates }

unfoldable pub expired : ℕ → Certificate → Bool
expired now c = leb c.not_after now

unfoldable pub revoked : Certificate → Bool
revoked c = elim c.status [ none ↦ false | some s ↦ s == "revoked" ]

abbrev pub value_beq : Value → Value → Bool
value_beq (number a) (number b) = a == b
value_beq (word a) (word b) = a == b
value_beq null null = true
value_beq _ _ = false

pub value_beq_iff : (a b : Value) → (value_beq a b ≡ true) ↔ (a ≡ b)
value_beq_iff (number a) (number b) = ground arith
value_beq_iff (word a) (word b) = ground (arith, eq_iff a b)
value_beq_iff null null = ground arith
value_beq_iff _ _ = ground arith

abbrev pub account_beq : Option Value → Option Value → Bool
account_beq none none = true
account_beq (some a) (some b) = value_beq a b
account_beq _ _ = false

pub account_beq_iff : (a b : Option Value) → (account_beq a b ≡ true) ↔ (a ≡ b)
account_beq_iff none none = ground arith
account_beq_iff (some a) (some b) = ground (arith, value_beq_iff a b)
account_beq_iff _ _ = ground arith

instance abbrev pub account_eq : Eq (Option Value)
account_eq = record { same = account_beq; same_iff = account_beq_iff }

abbrev pub account_of : Destination → Option Value
account_of d = get_plugin_option "accountNumber" d.options

-- Whether the account is in the dictionary of the plugin's accounts. `dest_plugin_accounts` is kept as
-- the list of the pairs of a plugin and an account that it has.
unfoldable pub has_account : String → Option Value → List (String × Option Value) → Bool
has_account plugin account [] = false
has_account plugin account ((p, a) ∷ seen) =
    (p == plugin && a == account) || has_account plugin account seen

-- Whether the destinations are accepted; the code raises where not.
unfoldable pub accepts_from : Plugins → List (String × Option Value) → List Destination → Bool
accepts_from p seen [] = true
accepts_from p seen (d ∷ destinations) =
    let rest = accepts_from p ((d.plugin_name, account_of d) ∷ seen) destinations in
    if has_account d.plugin_name (account_of d) seen
      && not (p.allow_multiple_per_account d.plugin_name)
    then false
    else rest

unfoldable pub validate_no_duplicate_destinations : Plugins → List Destination → Bool
validate_no_duplicate_destinations p destinations = accepts_from p [] destinations

-- The prefix of the labels of an owner's default notifications.
unfoldable pub notification_prefix : String → String
notification_prefix owner = concat "DEFAULT_" (upper (before b'@' owner))

unfoldable pub without_owner : String → List String → List String
without_owner owner roles = select (λ r. not (r == owner)) roles

unfoldable pub without_defaults : String → List String → List String
without_defaults owner notifications =
    select (λ n. not (starts (notification_prefix owner) n)) notifications

unfoldable pub update_switches :
    (notify rotation : Option Bool) → Certificate → Db → Certificate × Db
update_switches notify rotation c db =
    let c' : Certificate = record c {
      notify = elim notify [ none ↦ c.notify | some b ↦ b ];
      rotation = elim rotation [ none ↦ c.rotation | some b ↦ b ];
    } in
    (c', save c' db)

-- The new owner with the roles and notifications that the schema made for it.
unfoldable pub update_owner :
    (owner : String) → (roles notifications : List String) → Certificate → Db → Certificate × Db
update_owner owner roles notifications c db =
    let c' : Certificate = record c {
      owner = owner;
      roles = roles ++ without_owner c.owner c.roles;
      notifications = notifications ++ without_defaults c.owner c.notifications;
    } in
    (c', save c' db)

-- What an attempt to take a certificate off its destinations leaves: the destinations, the message,
-- and what was cleaned.
pub record Cleanup : Type 0 where
  pub destinations : List Destination
  pub message : String
  pub cleaned : List (ℕ × String)

-- The exception, and what was cleaned.
unfoldable pub remove_from_destination :
    Plugins → ℕ → Destination → List (ℕ × String) → Option String × List (ℕ × String)
remove_from_destination p i d cleaned =
    if p.has_clean d.plugin_name
    then elim (p.clean i d) [
      | some e ↦ (some e, cleaned)
      | none ↦ (none, cleaned ++ (i, d.label) ∷ [])
    ]
    else (none, cleaned)

abbrev pub removal_error : Destination → String → String
removal_error d e = join ("Failed to remove destination: " ∷ d.label ∷ ". " ∷ e ∷ ". " ∷ [])

-- `destinations.remove(destination)`
unfoldable pub remove : Destination → List Destination → List Destination
remove d destinations = select (λ x. not (x.label == d.label)) destinations

unfoldable pub cleanup_destination : Plugins → ℕ → Destination → Cleanup → Cleanup
cleanup_destination p i d s =
    let (e, cleaned) = remove_from_destination p i d s.cleaned in
    record {
      destinations = elim e [ none ↦ remove d s.destinations | some _ ↦ s.destinations ];
      message = elim e [ none ↦ s.message | some text ↦ concat s.message (removal_error d text) ];
      cleaned = cleaned;
    }

unfoldable pub cleanup_destinations : Plugins → ℕ → List Destination → Cleanup → Cleanup
cleanup_destinations p i [] s = s
cleanup_destinations p i (d ∷ destinations) s =
    cleanup_destinations p i destinations (cleanup_destination p i d s)

abbrev pub start_cleanup : Certificate → Db → Cleanup
start_cleanup c db = record { destinations = c.destinations; message = ""; cleaned = db.cleaned }

-- The message says what could not be removed. A notice that cannot be sent is passed over.
unfoldable pub cleanup_after_revoke : Plugins → Certificate → Db → String × Db
cleanup_after_revoke p c db =
    let s : Cleanup = cleanup_destinations p c.id c.destinations (start_cleanup c db) in
    let c' : Certificate = record c {
      notify = false;
      rotation = false;
      status = some "revoked";
      destinations = s.destinations;
    } in
    (
      s.message,
      save c' (record db {
        cleaned = s.cleaned;
        mails = if c.notify && p.sends c.id then db.mails ++ c.id ∷ [] else db.mails;
      }),
    )

-- The message, or the exception of the issuer's plugin.
unfoldable pub revoke : Plugins → Certificate → Db → Result Failure String × Db
revoke p c db = elim (p.revoke_certificate c.authority c.id) [
  | some e ↦ (err e, db)
  | none ↦
      let (message, db') =
        cleanup_after_revoke p c (record db { calls = db.calls ++ ("revoke", c.id) ∷ [] }) in
      (ok message, db')
]

unfoldable pub deactivate : Plugins → Certificate → Db → Result Failure (Unit {0}) × Db
deactivate p c db = elim (p.deactivate_certificate c.authority c.id) [
  | some e ↦ (err e, db)
  | none ↦ (ok tt, record db { calls = db.calls ++ ("deactivate", c.id) ∷ [] })
]

unfoldable pub is_attached_to_endpoint : Plugins → (certificate endpoint : String) → Bool
is_attached_to_endpoint p name endpoint = contains name (p.attached endpoint)

-- What cannot be cleaned is passed over.
unfoldable pub remove_destination_association :
    Plugins → (clean : Bool) → Certificate → Destination → Db → Db
remove_destination_association p clean c d db =
    save (record c { destinations = remove d c.destinations })
      (record db {
        cleaned = if clean then (remove_from_destination p c.id d db.cleaned).1 else db.cleaned;
      })

-- What the listener `update_destinations` uploads, and the exception that stops it.
unfoldable pub update_destinations :
    Plugins → ℕ → Certificate → Destination → List (ℕ × String) → Option String × List (ℕ × String)
update_destinations p now c d uploaded =
    if not (expired now c) && (c.has_private_key || not (p.requires_key d.plugin_name))
    then elim (p.upload c.id d) [
      | some e ↦ (some e, uploaded)
      | none ↦ (none, uploaded ++ (c.id, d.label) ∷ [])
    ]
    else (none, uploaded)

abbrev pub has_label : String → List Destination → Bool
has_label l [] = false
has_label l (d ∷ destinations) = d.label == l || has_label l destinations

abbrev pub uploaded_then :
    Option String × List (ℕ × String)
    → (List (ℕ × String) → Option String × List (ℕ × String))
    → Option String × List (ℕ × String)
uploaded_then (some e, uploaded) rest = (some e, uploaded)
uploaded_then (none, uploaded) rest = rest uploaded

-- `cert.destinations = destinations`: the listener runs for each one that is new, until it raises.
unfoldable pub set_destinations :
    Plugins
    → ℕ
    → Certificate
    → List Destination
    → List (ℕ × String)
    → Option String × List (ℕ × String)
set_destinations p now c [] uploaded = (none, uploaded)
set_destinations p now c (d ∷ destinations) uploaded =
    let old = set_destinations p now c destinations uploaded in
    if has_label d.label c.destinations
    then old
    else uploaded_then (update_destinations p now c d uploaded)
        (set_destinations p now c destinations)

-- `update_replacement`, of the certificates that are replaced from now on.
unfoldable pub update_replacement : List ℕ → List Certificate → List Certificate
update_replacement [] rows = rows
update_replacement (i ∷ replaced) rows =
    update_replacement replaced (modify certificate_id i (λ r. record r { notify = false }) rows)
