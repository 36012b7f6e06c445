-- ===== src/Sources.antt =====
-- lemur/sources/service.py: how the certificates that a source reports are matched with the table of
-- certificates, linked to the source and unlinked from it. Sources and destinations are named by their
-- labels, which are unique for sources and taken to differ for destinations, and a certificate has
-- each at most once.
pub mod Links
pub mod Found
pub mod Left
pub mod Clean
use lemur.Prelude.{
  ℕ, String, ◌+◌, Bool, true, false, not, ◌&&◌, ◌||◌, Option, none, some, List, [], ◌∷◌, ◌++◌, ◌==◌,
  nat_eq, string_eq, if◌then◌else◌, select, contains, any, map, leb, length,
}
use lemur.Prelude.Table.{first, modify}

pub record Certificate : Type 0 where
  pub id : ℕ
  pub name : String
  pub serial : String
  pub body : String
  pub owner : String
  pub creator : String
  pub not_after : ℕ
  pub revoked : Bool
  pub replaced : Bool
  pub external_id : Option String
  pub authority_id : Option ℕ
  pub description : String
  pub sources : List String
  pub destinations : List String

-- A dictionary that a source plugin reports. `search` is the test of `get_by_attributes`.
pub record Reported : Type 0 where
  pub body : String
  pub search : Option (Certificate → Bool)
  pub name : Option String
  pub serial : Option String
  pub owner : Option String
  pub external_id : Option String
  pub authority_id : Option ℕ

-- `serial` and `fingerprint` are of the parsed certificate, `import_certificate` is the row that the
-- certificate service makes, the number apart. `destination` is whether a destination has the label
-- of the source.
pub record Env : Type 0 where
  pub now : ℕ
  pub serial : String → String
  pub fingerprint : String → ℕ
  pub import_certificate : Reported → (owner creator : String) → Certificate
  pub destination : Bool

pub record Db : Type 0 where
  pub certificates : List Certificate
  pub next : ℕ

abbrev pub certificate_id : Certificate → ℕ
certificate_id c = c.id

abbrev pub get_by_serial : String → List Certificate → List Certificate
get_by_serial serial rows = select (λ c. c.serial == serial) rows

unfoldable pub get_all_valid_certificates_with_source :
    Env → String → List Certificate → List Certificate
get_all_valid_certificates_with_source env label rows =
    select
      (λ c. contains label c.sources && not c.revoked && leb env.now c.not_after && not c.replaced)
      rows

-- The four ways to look a reported certificate up, each taken where the ones before found nothing.
abbrev pub or_else : List Certificate → List Certificate → List Certificate
or_else [] later = later
or_else (c ∷ found) later = c ∷ found

abbrev pub by_search : Reported → List Certificate → List Certificate
by_search r rows = elim r.search [ none ↦ [] | some test ↦ select test rows ]

abbrev pub by_name : Reported → List Certificate → List Certificate
by_name r rows = elim r.name [
  | none ↦ []
  | some name ↦
      if name == ""
      then []
      else elim (first (λ c. c.name == name) rows) [ none ↦ [] | some c ↦ c ∷ [] ]
]

abbrev pub by_serial : Reported → List Certificate → List Certificate
by_serial r rows = elim r.serial [
  | none ↦ []
  | some serial ↦ if serial == "" then [] else get_by_serial serial rows
]

unfoldable pub find_matching_certificates_by_hash :
    Env → String → List Certificate → List Certificate
find_matching_certificates_by_hash env body matching =
    select (λ c. env.fingerprint c.body == env.fingerprint body) matching

-- What is found, and how often the comparison of hashes was needed.
unfoldable pub find_cert : Env → Reported → List Certificate → List Certificate × ℕ
find_cert env r rows =
    elim (or_else (by_search r rows) (or_else (by_name r rows) (by_serial r rows))) [
      | [] ↦ (
        find_matching_certificates_by_hash env r.body (get_by_serial (env.serial r.body) rows),
        1,
      )
      | c ∷ found ↦ (c ∷ found, 0)
    ]

abbrev pub add_label : String → List String → List String
add_label label labels = if contains label labels then labels else labels ++ label ∷ []

unfoldable pub sync_update_destination : Env → String → Certificate → Certificate
sync_update_destination env label c = record c {
  destinations = if env.destination then add_label label c.destinations else c.destinations;
}

unfoldable pub certificate_update : Env → String → Certificate → Certificate
certificate_update env label c =
    sync_update_destination env label (record c { sources = add_label label c.sources })

-- The fields that are set where the source reports them.
abbrev pub set_reported : Reported → Certificate → Certificate
set_reported r c = record c {
  external_id = elim r.external_id [
    | none ↦ c.external_id
    | some v ↦ if v == "" then c.external_id else some v
  ];
  authority_id = elim r.authority_id [
    | none ↦ c.authority_id
    | some v ↦ if v == 0 then c.authority_id else some v
  ];
}

-- The owner is the user's address where the source reports none.
abbrev pub owner_of : Reported → String → String
owner_of r email = elim r.owner [ none ↦ email | some o ↦ if o == "" then email else o ]

unfoldable pub certificate_create : Env → String → (email : String) → Reported → Db → Db
certificate_create env label email r db =
    let c = env.import_certificate r (owner_of r email) email in
    let c' : Certificate = sync_update_destination env label (record c {
      id = db.next;
      description = "This certificate was automatically discovered by Lemur";
      sources = c.sources ++ label ∷ [];
    }) in
    record db { certificates = db.certificates ++ c' ∷ []; next = db.next + 1 }

-- A run: the table, the numbers of `existing_certificates_with_source_by_id`, and the counters.
pub record Run : Type 0 where
  pub db : Db
  pub existing : List ℕ
  pub new : ℕ
  pub updated : ℕ
  pub updated_by_hash : ℕ

-- A certificate that was found is updated and linked, and is no longer one to unlink.
unfoldable pub update_found : Env → String → Reported → List Certificate → Run → Run
update_found env label r [] run = run
update_found env label r (e ∷ found) run = update_found env label r found (record {
  db = record run.db {
    certificates =
        modify certificate_id e.id (λ c. certificate_update env label (set_reported r c))
          run.db.certificates;
  };
  existing = select (λ i. not (i == e.id)) run.existing;
  new = run.new;
  updated = run.updated + 1;
  updated_by_hash = run.updated_by_hash;
})

-- `updated_by_hash` is set to the count of this lookup.
unfoldable pub sync_found :
    Env → String → (email : String) → Reported → List Certificate × ℕ → Run → Run
sync_found env label email r ([], by_hash) run = record run {
  db = certificate_create env label email r run.db;
  new = run.new + 1;
  updated_by_hash = by_hash;
}
sync_found env label email r (e ∷ found, by_hash) run =
    update_found env label r (e ∷ found) (record run { updated_by_hash = by_hash })

unfoldable pub sync_reported : Env → String → (email : String) → List Reported → Run → Run
sync_reported env label email [] run = run
sync_reported env label email (r ∷ reported) run =
    sync_reported env label email reported
      (sync_found env label email r (find_cert env r run.db.certificates) run)

-- `remove_source_association`, and `remove_destination_association` without its cleaning.
unfoldable pub remove_associations : Env → String → Certificate → Certificate
remove_associations env label c = record c {
  sources = select (λ l. not (l == label)) c.sources;
  destinations =
      if env.destination then select (λ l. not (l == label)) c.destinations else c.destinations;
}

unfoldable pub unlink : Env → String → List ℕ → List Certificate → List Certificate
unlink env label [] rows = rows
unlink env label (i ∷ left) rows =
    unlink env label left (modify certificate_id i (remove_associations env label) rows)

unfoldable pub start : Env → String → Db → Run
start env label db = record {
  db = db;
  existing = map certificate_id (get_all_valid_certificates_with_source env label db.certificates);
  new = 0;
  updated = 0;
  updated_by_hash = 0;
}

unfoldable pub sync_certificates : Env → String → (email : String) → List Reported → Db → Run
sync_certificates env label email reported db =
    let run = sync_reported env label email reported (start env label db) in
    record run {
      db = record run.db { certificates = unlink env label run.existing run.db.certificates };
      updated = run.updated + length run.existing;
    }
