-- ===== src/Tests/Certificates.antt =====
-- Examples for lemur/certificates/service.py and lemur/certificates/views.py.
use lemur.Prelude.{
  ℕ, String, ◌≡◌, refl, inl, inr, Bool, true, false, not, ◌&&◌, ◌||◌, Option, none, some, List, [],
  ◌∷◌, ◌==◌, string_eq, any, all, contains, if◌then◌else◌, arith,
}
use lemur.Prelude.Table.{find, first}
use lemur.Auth.Permissions.{Need, need_eq, Account, Principal}
use lemur.Notifications.{word, PluginOption}
use lemur.Certificates.{
  Destination, Certificate, Plugins, Db, get, revoke, has_label, validate_no_duplicate_destinations,
}
use lemur.Certificates.Duplicates.{some_clash, duplicates_refused}
use lemur.Certificates.Revocation.{lets_go, Retired, Reports, revoke-Retired}
use lemur.Certificates.Views.{Site, Edit, revokes, switches, handle, put_valid}
use lemur.Certificates.Lifecycle.{ContinuesIn, here, next, Reach-ContinuesIn}
use lemur.Certificates.Edits.{found_label, all_gone, put_valid-destinations}

abbrev account_number : String → List PluginOption
account_number n = record { name = "accountNumber"; value = some (word n); default = none } ∷ []

abbrev production : Destination
production = record { label = "production"; plugin_name = "aws"; options = account_number "1" }

abbrev staging : Destination
staging = record { label = "staging"; plugin_name = "aws"; options = account_number "2" }

abbrev store : Destination
store = record { label = "store"; plugin_name = "s3"; options = [] }

-- Production is not cleaned, the store cannot be.
abbrev plugins : Plugins
plugins = record {
  has_clean = λ p. if p == "s3" then false else true;
  clean = λ i d. if d.label == "production" then some "in use" else none;
  upload = λ i d. none;
  requires_key = λ p. true;
  allow_multiple_per_account = λ p. false;
  revoke_certificate = λ a i. none;
  deactivate_certificate = λ a i. none;
  attached = λ e. [];
  sends = λ i. true;
}

abbrev web : Certificate
web = record {
  id = 1;
  name = "web";
  owner = "team@example.com";
  user = 7;
  authority = "acme";
  has_private_key = true;
  notify = true;
  rotation = true;
  status = none;
  deleted = false;
  not_after = 1000;
  roles = "ops" ∷ [];
  notifications = [];
  destinations = production ∷ staging ∷ store ∷ [];
  replaces = [];
  endpoints = [];
}

abbrev db : Db
db = record {
  certificates = web ∷ [];
  cleaned = [];
  uploaded = [];
  mails = [];
  calls = [];
  logs = [];
}

duplicates_refused_example :
    validate_no_duplicate_destinations plugins (production ∷ staging ∷ production ∷ []) ≡ false
unfolding some_clash lemur.Certificates.Duplicates.clash lemur.Notifications.get_plugin_option any
duplicates_refused_example = duplicates_refused plugins (production ∷ staging ∷ production ∷ [])

revoke-Retired_example :
    Retired plugins web (get 1 (revoke plugins web db).1)
    × Reports (all (lets_go plugins 1) web.destinations) (revoke plugins web db).0
unfolding find first
revoke-Retired_example = revoke-Retired plugins web db refl refl

abbrev allows : List Need → List Need → Bool
allows [] provides = true
allows (n ∷ needs) provides = any (λ m. contains m provides) (n ∷ needs)

abbrev site : Site
site = record {
  principal = record {
    allows = allows;
    allows_none = λ provides. refl;
    allows_some = λ n needs provides. refl;
  };
  plugins = plugins;
  roles = λ name. some 3;
  valid_owner = λ email. true;
  allow_deletion = true;
  now = 500;
}

-- The user has the role of the owner, which is not one of the certificate's.
abbrev owner : Account
owner = record {
  id = 8;
  roles = record { id = 3; name = "team@example.com" } ∷ [];
  authorities = [];
}

abbrev creator : Account
creator = record { id = 7; roles = []; authorities = [] }

Reach-ContinuesIn_example : ContinuesIn web (
    get 1
      (handle site creator 1 (switches (some true) none) (handle site creator 1 revokes db).1).1)
unfolding find first
Reach-ContinuesIn_example =
    Reach-ContinuesIn 1 web
      (next site creator 1 (switches (some true) none) (next site creator 1 revokes here)) refl

abbrev edit : Edit
edit = record {
  owner = "team@example.com";
  notify = none;
  rotation = some false;
  roles = "ops" ∷ [];
  notifications = [];
  destinations = store ∷ [];
  replaces = [];
}

put_valid-destinations_example :
    (found_label "production" (get 1 (put_valid site web edit db).1) ≡ true)
    × ((put_valid site web edit db).0.code ≡ 400)
unfolding find first any all_gone lets_go
put_valid-destinations_example =
    put_valid-destinations "production" site web edit db refl (λ i d. refl)
