-- ===== src/Tests/Creation.antt =====
-- Examples for the creation of certificates and for lemur/destinations/service.py.
use lemur.Prelude.{
  String, ◌≡◌, refl, Bool, true, false, none, some, List, [], ◌∷◌, ◌==◌, string_eq, any, all,
  contains, if◌then◌else◌,
}
use lemur.Prelude.Table.{find, first, distinct}
use lemur.Auth.Permissions.{Need, need_eq, Account, Principal, Config}
use lemur.Notifications.{word, PluginOption}
use lemur.Certificates
use lemur.Certificates.{Plugins, certificate_id}
use lemur.Directory.{Directory}
use lemur.Issuance.{Authority, dns, Order, signed, granted, denied, Site, Db, name_eq, create, mint}
use lemur.Issuance.Post.{post}
use lemur.Issuance.Orders.{is_in_order, post_asks_once}
use lemur.Issuance.Owners.{IsOwned, create-IsOwned}
use lemur.Destinations
use lemur.Destinations.{Destination, add_aws_destination_to_sources, delete, is_valid}
use lemur.Destinations.Synced.{sources_added_once}
use lemur.Destinations.Deleted.{is_assigned, was_cleaned, delete-is_assigned}

abbrev plugins : Plugins
plugins = record {
  has_clean = λ p. true;
  clean = λ i d. none;
  upload = λ i d. none;
  requires_key = λ p. true;
  allow_multiple_per_account = λ p. false;
  revoke_certificate = λ a i. none;
  deactivate_certificate = λ a i. none;
  attached = λ e. [];
  sends = λ i. true;
}

abbrev allows : List Need → List Need → Bool
allows [] provides = true
allows (n ∷ needs) provides = any (λ m. contains m provides) (n ∷ needs)

abbrev config : Config
config = record {
  sensitive_domain_roles = [];
  admin_only_authority_creation = false;
  strict_role_enforcement = true;
}

-- The provider grants one domain only.
abbrev site : Site
site = record {
  principal = record {
    allows = allows;
    allows_none = λ provides. refl;
    allows_some = λ n needs provides. refl;
  };
  config = config;
  plugins = plugins;
  str = λ i. "1";
  does_group_exist = none;
  is_authorized = some (λ domain caller. if domain == "a.example.com" then granted else denied);
  application = none;
  email = "user@example.com";
  private_plugins = [];
  autoresolve_disabled = false;
  new_csr = some "csr";
  create_certificate = λ csr. signed "body";
}

abbrev order : Order
order = record {
  owner = "team@example.com";
  authority = record {
    id = 1;
    name = "ca";
    owner = "pki@example.com";
    plugin_name = "ca";
    roles = "ops" ∷ [];
  };
  common_name = "a.example.com";
  names = dns "a.example.com" ∷ dns "b.example.com" ∷ [];
  csr = "";
  roles = [];
  destinations = [];
  replaces = [];
  private_key = false;
  notified = none;
  notify = none;
}

abbrev directory : Directory
directory = record { roles = []; next_role = 1; users = []; next_user = 1; audit = [] }

abbrev db : Db
db = record {
  directory = directory;
  certificates = [];
  pending = [];
  next = 1;
  next_pending = 1;
  requests = 0;
  queue = [];
  logs = [];
}

abbrev operator : Account
operator = record {
  id = 4;
  roles = record { id = 2; name = "operator" } ∷ record { id = 3; name = "ops" } ∷ [];
  authorities = [];
}

-- The second domain is not granted.
post_asks_once_example : (post site operator order db).1.requests ≡ 0
unfolding is_in_order all any contains lemur.Auth.Permissions.Grants.has_role
    lemur.Auth.Permissions.Grants.has_any_role lemur.Issuance.Post.is_private_authority
    lemur.Issuance.Post.str_role lemur.Issuance.Domains.may_issue lemur.Issuance.Domains.domains
    lemur.Issuance.Domains.dns_names lemur.Issuance.is_valid_owner
    lemur.Issuance.is_authorized_for_domain first
post_asks_once_example = post_asks_once site operator order db

create-IsOwned_example :
    IsOwned "team@example.com" (create site 4 order db).0 (create site 4 order db).1.directory
create-IsOwned_example = create-IsOwned site 4 order db

abbrev place : String → PluginOption
place name = record { name = name; value = none; default = none }

abbrev destinations_site : Destinations.Site
destinations_site = record {
  now = 10;
  plugins = plugins;
  sync_as_source = λ p. true;
  sync_as_source_name = λ p. "aws-source";
  options = λ p. place "accountNumber" ∷ place "path" ∷ [];
}

abbrev production : Destination
production = record {
  id = 1;
  label = "production";
  plugin_name = "aws";
  options =
      record { name = "accountNumber"; value = some (word "1"); default = none }
      ∷ record { name = "path"; value = some (word "/"); default = none }
      ∷ [];
  description = "";
}

abbrev web : Certificates.Certificate
web = record {
  id = 1;
  name = "web";
  owner = "team@example.com";
  user = 7;
  authority = "acme";
  has_private_key = true;
  notify = true;
  rotation = true;
  status = none;
  deleted = false;
  not_after = 1000;
  roles = [];
  notifications = [];
  destinations = record { label = "production"; plugin_name = "aws"; options = [] } ∷ [];
  replaces = [];
  endpoints = [];
}

abbrev destinations : Destinations.Db
destinations = record {
  destinations = production ∷ [];
  sources = [];
  certificates = record {
    certificates = web ∷ [];
    cleaned = [];
    uploaded = [];
    mails = [];
    calls = [];
    logs = [];
  };
  next = 2;
  next_source = 1;
  audit = [];
}

sources_added_once_example :
    add_aws_destination_to_sources destinations_site production
      (add_aws_destination_to_sources destinations_site production destinations).1
    ≡ (false, (add_aws_destination_to_sources destinations_site production destinations).1)
unfolding lemur.Notifications.Due.has_option any
sources_added_once_example = sources_added_once destinations_site production destinations refl

delete-is_assigned_example :
    (is_assigned "production"
        (find certificate_id 1 (delete destinations_site 1 destinations).certificates.certificates)
      ≡ false)
    × (was_cleaned 1 "production" (delete destinations_site 1 destinations).certificates.cleaned
        ≡ true)
unfolding find first distinct contains is_valid any lemur.Certificates.revoked
delete-is_assigned_example =
    delete-is_assigned destinations_site 1 1 production "production" destinations refl refl
