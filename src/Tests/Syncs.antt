-- ===== src/Tests/Syncs.antt =====
-- Examples for the synchronisation of sources.
use lemur.Prelude.{
  ℕ, ◌≡◌, refl, true, false, none, some, [], ◌∷◌, any, contains, select, nat_eq, string_eq,
}
use lemur.Prelude.Table.{find, first, distinct}
use lemur.Sources.{
  Certificate, Reported, Env, Db, sync_certificates, sync_reported, start, find_cert,
}
use lemur.Sources.Links.{linked}
use lemur.Sources.Left.{is_found, is_valid_with_source, sync_unlinks_the_unfound}
use lemur.Sources.Found.{sync_keeps_what_is_found}
use lemur.Sources.Clean as Cleaning
use lemur.Sources.Clean.{
  Site, clean, clean_unused_and_expiring_within_days, clean_unused_and_issued_since_days,
  certificate_id, is_unused, expired, expiring_in_days, issued_since_days, without,
}
use lemur.Sources.Clean.Rows.{clean_by_row, clean_row_of, clean_row}

abbrev certificate : Certificate
certificate = record {
  id = 1;
  name = "www";
  serial = "77";
  body = "BODY";
  owner = "team@example.com";
  creator = "team@example.com";
  not_after = 2000;
  revoked = false;
  replaced = false;
  external_id = none;
  authority_id = none;
  description = "";
  sources = "aws" ∷ [];
  destinations = [];
}

abbrev db : Db
db = record { certificates = certificate ∷ []; next = 2 }

abbrev env : Env
env = record {
  now = 1000;
  serial = λ body. "77";
  fingerprint = λ body. 5;
  import_certificate = λ r owner creator. certificate;
  destination = true;
}

abbrev reported : Reported
reported = record {
  body = "BODY";
  search = none;
  name = some "www";
  serial = none;
  owner = none;
  external_id = none;
  authority_id = none;
}

sync_unlinks_the_unfound_example :
    linked "aws" 1 (sync_certificates env "aws" "admin@example.com" [] db).db.certificates ≡ false
unfolding linked find first contains distinct is_found is_valid_with_source
sync_unlinks_the_unfound_example =
    sync_unlinks_the_unfound env "aws" "admin@example.com" [] db 1 refl refl

sync_keeps_what_is_found_example :
    linked "aws" 1
      (sync_certificates env "aws" "admin@example.com" (reported ∷ []) db).db.certificates
    ≡ true
unfolding linked find first contains sync_reported start find_cert any
sync_keeps_what_is_found_example =
    sync_keeps_what_is_found env "aws" "admin@example.com" [] [] reported db 1 refl refl

abbrev site : Site
site = record {
  now = 1000000;
  midnight = λ moment. moment;
  has_clean = λ source. true;
  clean = λ source i. true;
}

abbrev unused : ℕ → Cleaning.Certificate
unused i = record {
  id = i;
  not_after = 999999;
  date_created = 999998;
  endpoints = [];
  sources = "aws" ∷ "cloud" ∷ [];
  destinations = "aws" ∷ [];
}

abbrev cleaned : ℕ → Cleaning.Certificate
cleaned i = record {
  id = i;
  not_after = 999999;
  date_created = 999998;
  endpoints = [];
  sources = "cloud" ∷ [];
  destinations = [];
}

abbrev table : Cleaning.Db
table = record { certificates = unused 1 ∷ unused 2 ∷ []; cleaned = [] }

clean_by_row_example :
    (find certificate_id 2 (clean site ("aws" ∷ []) true table).certificates ≡ some (cleaned 2))
    × (find certificate_id 2
          (clean_unused_and_expiring_within_days site ("aws" ∷ []) 3 true table).certificates
        ≡ some (cleaned 2))
    × (find certificate_id 2
          (clean_unused_and_issued_since_days site ("aws" ∷ []) 3 true table).certificates
        ≡ some (cleaned 2))
unfolding find first contains select clean_row_of clean_row is_unused expired expiring_in_days
    issued_since_days without distinct Cleaning.without_destination
clean_by_row_example = clean_by_row site ("aws" ∷ []) 3 true table 2 refl
