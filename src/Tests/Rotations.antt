-- ===== src/Tests/Rotations.antt =====
-- Examples for lemur/certificates/cli.py.
use lemur.Prelude.{
  all, any, not, ◌&&◌, ℕ, String, ◌+◌, ◌*◌, ◌≤◌, ◌<◌, ◌≡◌, refl, inl, inr, Bool, true, false,
  Option, none, some, List, [], ◌∷◌, map, select, contains, arith, if◌then◌else◌,
}
use lemur.Prelude.Text.{occurs}
use lemur.Prelude.Table.{find, first, distinct}
use lemur.Rotation.{
  Certificate, Endpoint, Db, Site, Names, minted, certificate_id, endpoint_id,
  get_all_pending_rotation, rotate, successor,
}
use lemur.Rotation.Reissue.{awaits_reissue, in_rotation_window, is_in_rotation_window, reissue}
use lemur.Rotation.Regional.{rotate_region, rotate_region_confined}
use lemur.Rotation.Settles.{runs, replaced_at, rotation_settles}
use lemur.Rotation.Renewal.{ends_at, reissued, as_issued, renewed}
use lemur.Rotation.Rehearsal.{dry_runs, window_of_any_policy}

abbrev certificate : ℕ → String → List ℕ → Certificate
certificate i name replaced = record {
  id = i;
  name = name;
  rotation = true;
  notify = true;
  not_after = 100000;
  policy_days = 30;
  replaced = replaced;
  destinations = [];
}

abbrev front : Endpoint
front = record {
  id = 10;
  name = "front";
  dnsname = "front.us-east-1.example.com";
  source = "aws";
  certificate = 1;
}

-- The first certificate is replaced by the second, and that one by the third.
abbrev db : Db
db = record {
  certificates =
      certificate 1 "a" (2 ∷ []) ∷ certificate 2 "b" (3 ∷ []) ∷ certificate 3 "c" [] ∷ [];
  endpoints = front ∷ [];
  next = 4;
  mails = [];
}

abbrev site : Site
site = record {
  policies = 30 ∷ [];
  now = 50000;
  update_endpoint = λ i c. true;
  visited = λ ids. ids;
  serialises = λ i. true;
  issue = λ i. minted (certificate 0 "new" []);
  excluded_destinations = [];
}

abbrev no_names : Names
no_names = record { endpoint = none; source = none; new_certificate = none; old_certificate = none }

rotate_region_confined_example :
    find endpoint_id 10 (rotate_region site "us-west-2" no_names false true db).1.endpoints
    ≡ some front
unfolding find first occurs lemur.Prelude.Text.starts
rotate_region_confined_example =
    rotate_region_confined site "us-west-2" no_names false true db 10 front refl refl

forward : (k : ℕ) → replaced_at db.certificates k ≡ true → k < successor db.certificates k
unfolding replaced_at successor find first
forward k h = ground arith

below : (k : ℕ) → replaced_at db.certificates k ≡ true → k < 3
unfolding replaced_at find first
below k h = ground arith

rotation_settles_example : get_all_pending_rotation (runs 3 site false db) ≡ []
unfolding distinct contains
rotation_settles_example =
    rotation_settles site false 3 3 db (λ i c. refl) refl forward below (omega arith)

-- No certificate is replaced yet.
abbrev due : Db
due = record db { certificates = certificate 1 "a" [] ∷ [] }

renewed_example :
    (find certificate_id (ends_at site true due 10) due.certificates ≡ none)
    × (find certificate_id (ends_at site true due 10) (reissued site true due).certificates
        ≡ some (as_issued (ends_at site true due 10) (certificate 0 "new" [])))
unfolding find first distinct contains awaits_reissue in_rotation_window all any
renewed_example =
    renewed site true due 10 front (certificate 1 "a" []) (certificate 0 "new" []) refl refl refl
      refl refl (λ i k. refl) refl refl refl

dry_runs_example :
    ((rotate site no_names true false db).1 ≡ db)
    × ((reissue site none true false db).1.certificates ≡ db.certificates)
    × ((reissue site none true false db).1.endpoints ≡ db.endpoints)
dry_runs_example = dry_runs site no_names true db

window_of_any_policy_example :
    (in_rotation_window (30 ∷ []) 50000 (certificate 1 "a" []) ≡ true)
    × ((true
          && is_in_rotation_window 50000 (certificate 1 "a" [])
          && not (in_rotation_window (30 ∷ []) 50000 (certificate 1 "a" [])))
        ≡ false)
unfolding any contains
window_of_any_policy_example = window_of_any_policy (30 ∷ []) 50000 (certificate 1 "a" [])
