-- ===== src/Tests/Orders.antt =====
-- Examples for the pending certificates.
use lemur.Prelude.{ℕ, ◌≡◌, refl, nat_eq, string_eq, ◌≤◌, true, false, none, some, [], ◌∷◌}
use lemur.Prelude.Result.{ok}
use lemur.Prelude.Table.{find, first}
use lemur.Pending.{PendingCertificate, Issued, ImportData, Certificate, Db, Env, import_data}
use lemur.Pending.Tasks.{Answer, Counts, handle_answer, handle_answers}
use lemur.Pending.Attempts.{tried_four_times, runs, IsOpen, IsGivenUp}
use lemur.Pending.Once.{IsIssued, issued_once}

abbrev order : PendingCertificate
order = record {
  id = 1;
  name = "www.example.com";
  authority_id = 4;
  owner = "team@example.com";
  user_id = 9;
  notify = true;
  rename = true;
  number_attempts = 0;
  resolved = false;
  resolved_cert_id = none;
  status = "";
  last_updated = 1000;
  notifications = [];
  destinations = [];
  sources = [];
  roles = [];
  replaces = [];
  rotation_policy = none;
}

abbrev done : PendingCertificate
done = record order { id = 2; resolved = true }

abbrev db : Db
db = record { pending = order ∷ done ∷ []; certificates = []; queue = []; mails = []; audit = [] }

abbrev made : ImportData → Certificate
made imported = record { id = 20; name = "made"; imported = imported }

abbrev env : Env
env = record {
  now = 2000;
  plugin_name = λ authority. "acme-issuer";
  user_by_email = λ email. none;
  load = λ issued. true;
  import_certificate = λ imported rows. (ok (made imported), made imported ∷ rows);
  cancel_ordered_certificate = λ p. true;
}

abbrev pem : Issued
pem = record { body = "BODY"; chain = "CHAIN"; external_id = "7" }

abbrev answer : Answer
answer = record { pending_cert = 1; cert = some pem; last_error = "" }

abbrev zero_counts : Counts
zero_counts = record { new = 0; failed = 0 }

abbrev certificate : Certificate
certificate = record { id = 20; name = "made"; imported = import_data env order pem 9 }

tried_four_times_example :
    ((n : ℕ) → n ≤ 3 → IsOpen db 1 4 n (runs (λ k. env) 1 none "timeout" n db))
    × IsGivenUp db none 1 (runs (λ k. env) 1 none "timeout" 4 db)
unfolding find first
tried_four_times_example =
    tried_four_times (λ k. env) none "timeout" order db (λ k. refl) refl refl refl

issued_once_example :
    (after : Db) × (handle_answer env 1 none answer zero_counts db
      ≡ (ok (record { new = 1; failed = 0 }), after))
    × IsIssued env order certificate (certificate ∷ []) db after
    × (handle_answers env 1 none (answer ∷ answer ∷ []) zero_counts after ≡ (ok zero_counts, after))
unfolding find first
issued_once_example =
    issued_once env env 1 1 none none order answer pem certificate (certificate ∷ []) zero_counts
      zero_counts (answer ∷ answer ∷ []) db refl refl refl refl refl refl (refl, (refl, tt))
