-- ===== src/Destinations.antt =====
-- lemur/destinations/service.py, with what it calls of lemur/sources/service.py and
-- lemur/certificates/service.py. The objects of plugins among the options are left out; options are
-- as they are stored.
pub mod Synced
pub mod Deleted
use lemur.Prelude.{
  ℕ, String, ◌+◌, Bool, true, false, not, ◌&&◌, ◌||◌, Option, none, some, List, [], ◌∷◌, ◌++◌, ◌==◌,
  nat_eq, string_eq, if◌then◌else◌, select, any, contains, map, leb,
}
use lemur.Prelude.Table.{first, find, put, drop}
use lemur.Notifications.{Value, word, PluginOption, get_plugin_option, set_plugin_option}
use lemur.Certificates
use lemur.Certificates.{
  Certificate, certificate_id, Plugins, account_eq, revoked, remove_destination_association,
  has_label, remove,
}

pub record Destination : Type 0 where
  pub id : ℕ
  pub label : String
  pub plugin_name : String
  pub options : List PluginOption
  pub description : String

pub record Source : Type 0 where
  pub id : ℕ
  pub label : String
  pub plugin_name : String
  pub options : List PluginOption
  pub description : String

-- `sync_as_source` and `sync_as_source_name` are of a destination's plugin, `options` of a source's.
pub record Site : Type 0 where
  pub now : ℕ
  pub plugins : Plugins
  pub sync_as_source : String → Bool
  pub sync_as_source_name : String → String
  pub options : String → List PluginOption

pub record Db : Type 0 where
  pub destinations : List Destination
  pub sources : List Source
  pub certificates : Certificates.Db
  pub next : ℕ
  pub next_source : ℕ
  pub audit : List (String × String)

abbrev pub destination_id : Destination → ℕ
destination_id d = d.id

abbrev pub get : ℕ → Db → Option Destination
get i db = find destination_id i db.destinations

-- A destination as a certificate refers to it.
abbrev pub reference : Destination → Certificates.Destination
reference d = record { label = d.label; plugin_name = d.plugin_name; options = d.options }

-- `create` of lemur/sources/service.py.
unfoldable pub create_source :
    (label plugin_name : String) → List PluginOption → (description : String) → Db → Db
create_source label plugin_name options description db = record db {
  sources =
      db.sources
      ++ record {
        id = db.next_source;
        label = label;
        plugin_name = plugin_name;
        options = options;
        description = description;
      }
        ∷ [];
  next_source = db.next_source + 1;
  audit = db.audit ++ ("create_source", label) ∷ [];
}

-- Whether a source has the account and the path.
unfoldable pub is_source : Value → Value → List Source → Bool
is_source account path sources =
    any
      (λ s.
        get_plugin_option "accountNumber" s.options == some account
        && get_plugin_option "path" s.options == some path)
      sources

unfoldable pub source_options : Site → String → (account path : Value) → List PluginOption
source_options w plugin account path =
    let options =
      set_plugin_option "path" path
        (set_plugin_option "accountNumber" account (w.options plugin)) in
    let cloudfront = set_plugin_option "endpointType" (word "cloudfront") options in
    if not (get_plugin_option "endpointType" options == none)
      && some path == some (word "/cloudfront/")
    then cloudfront
    else options

-- For an account and a path that are set.
unfoldable pub add_source : Site → Destination → (account path : Value) → Db → Bool × Db
add_source w d account path db =
    let plugin = w.sync_as_source_name d.plugin_name in
    if is_source account path db.sources then (false, db) else (
      true,
      create_source d.label plugin (source_options w plugin account path) d.description db,
    )

unfoldable pub add_aws_destination_to_sources : Site → Destination → Db → Bool × Db
add_aws_destination_to_sources w d db = elim (get_plugin_option "accountNumber" d.options) [
  | none ↦ (false, db)
  | some account ↦ elim (get_plugin_option "path" d.options) [
    | none ↦ (false, db)
    | some path ↦
        if w.sync_as_source d.plugin_name then add_source w d account path db else (false, db)
  ]
]

unfoldable pub create :
    Site → (label plugin_name : String) → List PluginOption → (description : String) → Db → Db
create w label plugin_name options description db =
    let d : Destination = record {
      id = db.next;
      label = label;
      plugin_name = plugin_name;
      options = options;
      description = description;
    } in
    let db' = (add_aws_destination_to_sources w d db).1 in
    record db' {
      destinations = db'.destinations ++ d ∷ [];
      next = db.next + 1;
      audit = db'.audit ++ ("create_destination", label) ∷ [];
    }

-- None where the destination is not there, and the code raises on its first attribute.
unfoldable pub update :
    Site
    → ℕ
    → (label plugin_name : String) → List PluginOption
    → (description : String) → Db
    → Option Db
update w i label plugin_name options description db = elim (get i db) [
  | none ↦ none
  | some d ↦
      let d' : Destination = record d {
        label = label;
        plugin_name = plugin_name;
        options = options;
        description = description;
      } in
      some
        (add_aws_destination_to_sources w d' (record db {
          destinations = put destination_id d' db.destinations;
          audit = db.audit ++ ("update_destination", label) ∷ [];
        })).1
]

-- Not revoked, not at its end, and replaced by no other.
unfoldable pub is_valid : (now : ℕ) → List Certificate → Certificate → Bool
is_valid now rows c =
    (not (revoked c) && leb now c.not_after)
    && not (any (λ (r : Certificate). contains c.id r.replaces) rows)

unfoldable pub get_all_valid_certificates_with_destination :
    (now : ℕ) → String → Certificates.Db → List Certificate
get_all_valid_certificates_with_destination now label db =
    select (λ c. has_label label c.destinations && is_valid now db.certificates c) db.certificates

-- A certificate, read by its number, is taken off, and the plugin is asked to clean it.
unfoldable pub remove_one : Plugins → Destination → ℕ → Certificates.Db → Certificates.Db
remove_one p d i db = elim (find certificate_id i db.certificates) [
  | none ↦ db
  | some c ↦ remove_destination_association p true c (reference d) db
]

unfoldable pub remove_all : Plugins → Destination → List ℕ → Certificates.Db → Certificates.Db
remove_all p d [] db = db
remove_all p d (i ∷ ids) db = remove_all p d ids (remove_one p d i db)

-- The rows of the association that go with the row of the destination, whatever the certificate.
unfoldable pub drop_associations : Destination → List Certificate → List Certificate
drop_associations d rows =
    map (λ (c : Certificate). record c { destinations = remove (reference d) c.destinations }) rows

unfoldable pub delete : Site → ℕ → Db → Db
delete w i db = elim (get i db) [
  | none ↦ db
  | some d ↦
      let kept =
        remove_all w.plugins d
          (map certificate_id
            (get_all_valid_certificates_with_destination w.now d.label db.certificates))
          db.certificates in
      record db {
        certificates = record kept { certificates = drop_associations d kept.certificates };
        destinations = drop destination_id i db.destinations;
        audit = db.audit ++ ("delete_destination", d.label) ∷ [];
      }
]
