-- ===== src/Notifications/Groups.antt =====
-- lemur/notifications/messaging.py: which certificates a message is about, and how they are grouped.
-- A certificate has expired once its `not_after` is not in the future; the rows of the table come in
-- the order of their numbers, as the windowed query yields them. An excluded text has no wildcards.
use Prim.Native.Nat.{Ordering}
use Prim.Native.String.{compare}
use lemur.Prelude.{
  ℕ, String, ◌+◌, ◌*◌, Bool, true, false, not, ◌&&◌, none, some, List, [], ◌∷◌, ◌++◌, ◌==◌, nat_eq,
  string_eq, if◌then◌else◌, select, any, all, map, leb, ltb, Eq,
}
use lemur.Prelude.Result.{Result, ok, err}
use lemur.Prelude.Text.{lower, occurs}
use lemur.Prelude.Int.{ℤ, pos, negsuc, days_between, int_eq, day}
use lemur.Notifications.{Notification, Certificate, Trouble, needs_notification}

abbrev pub string_leb : String → String → Bool
string_leb a b = elim (compare a b) [ Ordering.gt ↦ false | _ ↦ true ]

abbrev pub int_leb : ℤ → ℤ → Bool
int_leb (pos a) (pos b) = leb a b
int_leb (negsuc a) (negsuc b) = leb b a
int_leb (pos a) (negsuc b) = false
int_leb (negsuc a) (pos b) = true

module _ {A K : Type 0} (key : A → K) where
  -- `sorted(xs, key=key)`, which keeps the order of equal keys.
  unfoldable pub insert : (K → K → Bool) → A → List A → List A
  insert le x [] = x ∷ []
  insert le x (y ∷ ys) =
      let rest = insert le x ys in if le (key x) (key y) then x ∷ y ∷ ys else y ∷ rest

  unfoldable pub sorted : (K → K → Bool) → List A → List A
  sorted le [] = []
  sorted le (x ∷ xs) = insert le x (sorted le xs)

  unfoldable pub join_group : ⦃e : Eq K⦄ → A → List (K × List A) → List (K × List A)
  join_group x [] = (key x, x ∷ []) ∷ []
  join_group x ((k, g) ∷ groups) =
      if key x == k then (k, x ∷ g) ∷ groups else (key x, x ∷ []) ∷ (k, g) ∷ groups

  -- `itertools.groupby(xs, key)`, each group as a list.
  unfoldable pub groupby : ⦃e : Eq K⦄ → List A → List (K × List A)
  groupby [] = []
  groupby (x ∷ xs) = join_group x (groupby xs)

-- The conditions that the three queries share.
unfoldable pub alive : (now : ℕ) → Certificate → Bool
alive now c = c.notify && ltb now c.not_after && not c.revoked

unfoldable pub included : (exclude : List String) → Certificate → Bool
included exclude c = all (λ e. not (occurs (lower e) (lower c.name))) exclude

unfoldable pub keep_if_needed :
    Certificate
    → Result Trouble (List Notification)
    → Result Trouble (List Certificate)
    → Result Trouble (List Certificate)
keep_if_needed c (err e) rest = err e
keep_if_needed c (ok needs) (err e) = err e
keep_if_needed c (ok []) (ok certs) = ok certs
keep_if_needed c (ok (n ∷ needs)) (ok certs) = ok (c ∷ certs)

unfoldable pub keep_needed : (now : ℕ) → List Certificate → Result Trouble (List Certificate)
keep_needed now [] = ok []
keep_needed now (c ∷ certs) = keep_if_needed c (needs_notification now c) (keep_needed now certs)

unfoldable pub get_certificates :
    (now : ℕ) → (exclude : List String) → List Certificate → Result Trouble (List Certificate)
get_certificates now exclude table =
    keep_needed now
      (select (λ c. leb c.not_after (now + 90 * day) && alive now c && included exclude c) table)

unfoldable pub get_certificates_for_security_summary_email :
    (now threshold_days : ℕ) → (exclude : List String) → List Certificate → List Certificate
get_certificates_for_security_summary_email now threshold_days exclude table =
    select (λ c. int_leb (days_between now c.not_after) (pos threshold_days))
      (select
        (λ c.
          leb c.not_after (now + (threshold_days + 1) * day) && (alive now c && included exclude c))
        table)

-- `max` of a list that is not empty.
unfoldable pub max_of : ℕ → List ℕ → ℕ
max_of i [] = i
max_of i (j ∷ rest) = let m = max_of j rest in if leb i m then m else i

-- `LEMUR_AUTHORITY_CERT_EXPIRATION_EMAIL_INTERVALS` is `i ∷ rest`: `max` fails on an empty list.
unfoldable pub get_expiring_authority_certificates :
    (now i : ℕ) → (rest : List ℕ) → List Certificate → List Certificate
get_expiring_authority_certificates now i rest table =
    select (λ c. any (λ n. days_between now c.not_after == pos n) (i ∷ rest))
      (select
        (λ c.
          ltb c.not_after (now + (max_of i rest + 1) * day)
          && (alive now c
              && (elim c.root_authority_id [ some _ ↦ true | none ↦ false ])
              && (elim c.authority_id [ some _ ↦ false | none ↦ true ])))
        table)

-- The pairs of a notification and a certificate, for the certificates of one owner.
unfoldable pub pair_with : Certificate → List Notification → List (Notification × Certificate)
pair_with c [] = []
pair_with c (n ∷ needs) = (n, c) ∷ pair_with c needs

unfoldable pub notification_groups :
    (now : ℕ) → List Certificate → Result Trouble (List (Notification × Certificate))
notification_groups now [] = ok []
notification_groups now (c ∷ certs) = elim (needs_notification now c) [
  | err e ↦ err e
  | ok needs ↦ elim (notification_groups now certs) [
    | err e ↦ err e
    | ok pairs ↦ ok (pair_with c needs ++ pairs)
  ]
]

abbrev pub owner_of : Certificate → String
owner_of c = c.owner

abbrev pub label_of : Notification × Certificate → String
label_of (n, c) = n.label

abbrev pub LabelGroup : Type 0
LabelGroup = String × List (Notification × Certificate)

unfoldable pub by_label :
    (now : ℕ) → List (String × List Certificate) → Result Trouble (List (String × List LabelGroup))
by_label now [] = ok []
by_label now ((owner, items) ∷ owners) = elim (notification_groups now items) [
  | err e ↦ err e
  | ok pairs ↦ elim (by_label now owners) [
    | err e ↦ err e
    | ok rest ↦ ok ((owner, groupby label_of (sorted label_of string_leb pairs)) ∷ rest)
  ]
]

unfoldable pub get_eligible_certificates :
    (now : ℕ)
    → (exclude : List String) → List Certificate
    → Result Trouble (List (String × List LabelGroup))
get_eligible_certificates now exclude table = elim (get_certificates now exclude table) [
  | err e ↦ err e
  | ok certs ↦ by_label now (groupby owner_of (sorted owner_of string_leb certs))
]

unfoldable pub by_interval : (now : ℕ) → List Certificate → List (ℤ × List Certificate)
by_interval now certs =
    let days = λ (c : Certificate). days_between now c.not_after in
    groupby days (sorted days int_leb certs)

unfoldable pub get_eligible_security_summary_certs :
    (now threshold_days : ℕ)
    → (exclude : List String) → List Certificate
    → List (ℤ × List Certificate)
get_eligible_security_summary_certs now threshold_days exclude table =
    by_interval now (get_certificates_for_security_summary_email now threshold_days exclude table)

unfoldable pub get_eligible_authority_certificates :
    (now i : ℕ) → (rest : List ℕ) → List Certificate → List (String × List (ℤ × List Certificate))
get_eligible_authority_certificates now i rest table =
    map (λ (owner, certs). (owner, by_interval now certs))
      (groupby owner_of
        (sorted owner_of string_leb (get_expiring_authority_certificates now i rest table)))
