-- ===== src/Endpoints.antt =====
-- The endpoints of a source: `sync_endpoints` and `expire_endpoints` of lemur/sources/service.py, with
-- what they call of lemur/endpoints/service.py. Sources are named by their labels. The retry after a
-- lost connection, and what is logged and measured, are left out.
pub mod Fresh
pub mod Unique
pub mod Expiry
use lemur.Prelude.{
  ℕ, String, ◌+◌, ◌-◌, ◌*◌, Bool, true, false, not, ◌&&◌, ◌||◌, Option, none, some, List, [], ◌∷◌,
  ◌++◌, ◌==◌, nat_eq, string_eq, if◌then◌else◌, select, leb, length,
}
use lemur.Prelude.Result.{Result, ok, err, Exec, ◌>>◌}
use lemur.Prelude.Table.{first, modify}
use lemur.Sources
use lemur.Sources.{Reported, find_cert}

pub record Endpoint : Type 0 where
  pub id : ℕ
  pub name : String
  pub dnsname : String
  pub port : ℕ
  pub policy : ℕ
  pub certificate : ℕ
  pub certificate_path : Option String
  pub registry_type : Option String
  pub source : String
  pub aliases : List String
  pub last_updated : ℕ

pub record Cipher : Type 0 where
  pub id : ℕ
  pub name : String

pub record Policy : Type 0 where
  pub id : ℕ
  pub name : String
  pub ciphers : List ℕ

-- A dictionary that the plugin's `get_endpoints` returns; without the key `aliases` there are none.
pub record Described : Type 0 where
  pub name : String
  pub dnsname : String
  pub port : ℕ
  pub certificate_name : String
  pub policy_name : String
  pub ciphers : List String
  pub certificate_path : Option String
  pub registry_type : Option String
  pub aliases : List String

pub record Db : Type 0 where
  pub endpoints : List Endpoint
  pub policies : List Policy
  pub ciphers : List Cipher
  pub next : ℕ

-- `get_certificate_by_name` is the plugin's, none also where it is not implemented.
pub record Env : Type 0 where
  pub now : ℕ
  pub certificates : List Sources.Certificate
  pub sources : Sources.Env
  pub get_certificate_by_name : String → Option Reported

abbrev pub endpoint_id : Endpoint → ℕ
endpoint_id e = e.id

abbrev pub at_address : String → ℕ → Endpoint → Bool
at_address dnsname port e = e.dnsname == dnsname && e.port == port

-- The exception of `scalar()` where several rows are found.
pub data Trouble : Type 0 where
  multiple_results : Trouble

abbrev pub scalar : List Endpoint → Result Trouble (Option Endpoint)
scalar [] = ok none
scalar (e ∷ []) = ok (some e)
scalar (e ∷ f ∷ more) = err multiple_results

unfoldable pub get_by_dnsname_and_port : String → ℕ → Db → Result Trouble (Option Endpoint)
get_by_dnsname_and_port dnsname port db = scalar (select (at_address dnsname port) db.endpoints)

-- One sequence gives the numbers of all three tables.
unfoldable pub get_or_create_cipher : String → Db → ℕ × Db
get_or_create_cipher name db = elim (first (λ (c : Cipher). c.name == name) db.ciphers) [
  | some c ↦ (c.id, db)
  | none ↦ (
    db.next,
    record db {
      ciphers = db.ciphers ++ record { id = db.next; name = name } ∷ [];
      next = db.next + 1;
    },
  )
]

unfoldable pub get_or_create_ciphers : List String → Db → List ℕ × Db
get_or_create_ciphers [] db = ([], db)
get_or_create_ciphers (name ∷ names) db =
    let (c, db') = get_or_create_cipher name db in
    let (rest, db'') = get_or_create_ciphers names db' in (c ∷ rest, db'')

unfoldable pub get_or_create_policy : String → List ℕ → Db → ℕ × Db
get_or_create_policy name ciphers db = elim (first (λ (p : Policy). p.name == name) db.policies) [
  | some p ↦ (p.id, db)
  | none ↦ (
    db.next,
    record db {
      policies = db.policies ++ record { id = db.next; name = name; ciphers = ciphers } ∷ [];
      next = db.next + 1;
    },
  )
]

abbrev pub created : Env → String → Described → (certificate policy number : ℕ) → Endpoint
created env label r certificate policy number = record {
  id = number;
  name = r.name;
  dnsname = r.dnsname;
  port = r.port;
  policy = policy;
  certificate = certificate;
  certificate_path = r.certificate_path;
  registry_type = r.registry_type;
  source = label;
  aliases = r.aliases;
  last_updated = env.now;
}

unfoldable pub create : Env → String → Described → (certificate policy : ℕ) → Db → Db
create env label r certificate policy db = record db {
  endpoints = db.endpoints ++ created env label r certificate policy db.next ∷ [];
  next = db.next + 1;
}

-- The fields that `update` sets.
unfoldable pub updated : Env → String → Described → (certificate policy : ℕ) → Endpoint → Endpoint
updated env label r certificate policy e = record e {
  policy = policy;
  certificate = certificate;
  source = label;
  certificate_path = r.certificate_path;
  registry_type = r.registry_type;
  aliases = r.aliases;
  last_updated = env.now;
}

-- The certificate of an endpoint: by its name, else by what the plugin says of it, and how often
-- hashes were compared.
unfoldable pub certificate_of : Env → Described → Option ℕ × ℕ
certificate_of env r =
    elim (first (λ (c : Sources.Certificate). c.name == r.certificate_name) env.certificates) [
      | some c ↦ (some c.id, 0)
      | none ↦ elim (env.get_certificate_by_name r.certificate_name) [
        | none ↦ (none, 0)
        | some attached ↦
            let (found, by_hash) = find_cert env.sources attached env.certificates in
            (elim found [ [] ↦ none | c ∷ more ↦ some c.id ], by_hash)
      ]
    ]

pub record Counts : Type 0 where
  pub new : ℕ
  pub updates : ℕ
  pub updated_by_hash : ℕ

unfoldable pub write_endpoint :
    Env
    → String
    → Described
    → (certificate policy : ℕ) → Option Endpoint
    → Counts × Db
    → Counts × Db
write_endpoint env label r certificate policy none (counts, db) =
    (record counts { new = counts.new + 1 }, create env label r certificate policy db)
write_endpoint env label r certificate policy (some e) (counts, db) = (
  record counts { updates = counts.updates + 1 },
  record db {
    endpoints = modify endpoint_id e.id (updated env label r certificate policy) db.endpoints;
  },
)

-- The round of the loop for an endpoint that exists or not, whose certificate is none where none was
-- found.
unfoldable pub sync_with :
    Env → String → Described → (exists : Option Endpoint) → Option ℕ → Counts × Db → Counts × Db
sync_with env label r exists none (counts, db) = (counts, db)
sync_with env label r exists (some certificate) (counts, db) =
    let (ciphers, db') = get_or_create_ciphers r.ciphers db in
    let (policy, db'') = get_or_create_policy r.policy_name ciphers db' in
    write_endpoint env label r certificate policy exists (counts, db'')

unfoldable pub sync_existing :
    Env → String → Described → (exists : Option Endpoint) → Counts × Db → Counts × Db
sync_existing env label r exists (counts, db) =
    let (certificate, by_hash) = certificate_of env r in
    sync_with env label r exists certificate
      (record counts { updated_by_hash = counts.updated_by_hash + by_hash }, db)

-- The lookup comes first, and what it raises ends the loop.
abbrev pub sync_looked_up :
    Env
    → String
    → Described
    → Result Trouble (Option Endpoint)
    → Counts × Db
    → Result Trouble (Unit {0}) × (Counts × Db)
sync_looked_up env label r (err e) s = (err e, s)
sync_looked_up env label r (ok exists) s = (ok tt, sync_existing env label r exists s)

unfoldable pub sync_endpoint : Env → String → Described → Exec Trouble (Counts × Db) (Unit {0})
sync_endpoint env label r s =
    sync_looked_up env label r (get_by_dnsname_and_port r.dnsname r.port s.1) s

unfoldable pub sync_endpoints :
    Env → String → List Described → Exec Trouble (Counts × Db) (Unit {0})
sync_endpoints env label [] s = (ok tt, s)
sync_endpoints env label (r ∷ endpoints) s =
    (sync_endpoint env label r >> sync_endpoints env label endpoints) s

-- What is as old as the bound, or older.
unfoldable pub is_stale : (now ttl_hours : ℕ) → String → Endpoint → Bool
is_stale now ttl_hours label e = e.source == label && leb (e.last_updated + ttl_hours * 3600) now

unfoldable pub expire_endpoints : (now ttl_hours : ℕ) → String → Db → ℕ × Db
expire_endpoints now ttl_hours label db = (
  length (select (is_stale now ttl_hours label) db.endpoints),
  record db { endpoints = select (λ e. not (is_stale now ttl_hours label e)) db.endpoints },
)
