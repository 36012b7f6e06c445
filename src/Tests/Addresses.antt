-- ===== src/Tests/Addresses.antt =====
-- Examples for endpoints.
use lemur.Prelude.{select, ◌≡◌, refl, true, false, none, [], ◌∷◌, arith, nat_eq, string_eq}
use lemur.Prelude.Table.{first}
use lemur.Sources
use lemur.Endpoints.{
  Endpoint, Described, Db, Env, Counts, certificate_of, get_by_dnsname_and_port, sync_endpoints,
  expire_endpoints,
}
use lemur.Endpoints.Expiry.{is_fresh_row, synced_endpoint_survives}
use lemur.Endpoints.Unique.{Unique, single}
use lemur.Prelude.Result.{ok}

abbrev certificate : Sources.Certificate
certificate = record {
  id = 1;
  name = "www";
  serial = "77";
  body = "BODY";
  owner = "team@example.com";
  creator = "team@example.com";
  not_after = 900000;
  revoked = false;
  replaced = false;
  external_id = none;
  authority_id = none;
  description = "";
  sources = "aws" ∷ [];
  destinations = [];
}

abbrev env : Env
env = record {
  now = 500000;
  certificates = certificate ∷ [];
  sources = record {
    now = 500000;
    serial = λ body. "77";
    fingerprint = λ body. 5;
    import_certificate = λ r owner creator. certificate;
    destination = false;
  };
  get_certificate_by_name = λ name. none;
}

abbrev described : Described
described = record {
  name = "lb";
  dnsname = "lb.example.com";
  port = 443;
  certificate_name = "www";
  policy_name = "tls";
  ciphers = "AES128" ∷ [];
  certificate_path = none;
  registry_type = none;
  aliases = [];
}

abbrev old : Endpoint
old = record {
  id = 1;
  name = "old";
  dnsname = "old.example.com";
  port = 443;
  policy = 1;
  certificate = 1;
  certificate_path = none;
  registry_type = none;
  source = "aws";
  aliases = [];
  last_updated = 1000;
}

abbrev db : Db
db = record { endpoints = old ∷ []; policies = []; ciphers = []; next = 2 }

abbrev zero_counts : Counts
zero_counts = record { new = 0; updates = 0; updated_by_hash = 0 }

no_two : Unique db.endpoints
unfolding select single
no_two d p = ground arith

synced_endpoint_survives_example :
    ((sync_endpoints env "aws" (described ∷ []) (zero_counts, db)).0 ≡ ok tt)
    × (is_fresh_row 500000 "aws" (
          get_by_dnsname_and_port "lb.example.com" 443
            (expire_endpoints 500100 2 "aws"
              (sync_endpoints env "aws" (described ∷ []) (zero_counts, db)).1.1).1)
        ≡ true)
unfolding certificate_of first
synced_endpoint_survives_example =
    synced_endpoint_survives env "aws" [] [] described 1 2 500100 zero_counts db no_two
      (omega arith) refl
