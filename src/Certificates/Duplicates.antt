-- ===== src/Certificates/Duplicates.antt =====
-- The test of destinations for a second one of the same plugin and account.
use lemur.Prelude.{
  String, Bool, false, not, ◌&&◌, ◌||◌, ◌≡◌, refl, Option, List, [], ◌∷◌, ◌==◌, string_eq, any,
  arith,
}
use lemur.Notifications.{Value}
use lemur.Certificates.{
  Destination, Plugins, account_of, account_eq, has_account, accepts_from,
  validate_no_duplicate_destinations,
}

-- Whether two destinations are of one plugin, which allows an account once, and of one account.
unfoldable pub clash : Plugins → Destination → Destination → Bool
clash p d e =
    (d.plugin_name == e.plugin_name && account_of d == account_of e)
    && not (p.allow_multiple_per_account e.plugin_name)

unfoldable pub some_clash : Plugins → List Destination → Bool
some_clash p [] = false
some_clash p (d ∷ destinations) = any (clash p d) destinations || some_clash p destinations

-- Whether a destination clashes with an account that was seen.
unfoldable pub clash_seen : Plugins → List (String × Option Value) → Destination → Bool
clash_seen p seen d =
    has_account d.plugin_name (account_of d) seen
    && not (p.allow_multiple_per_account d.plugin_name)

clash_seen-cons :
    (p : Plugins) (d : Destination) (seen : List (String × Option Value)) (ds : List Destination)
    → any (clash_seen p ((d.plugin_name, account_of d) ∷ seen)) ds
      ≡ (any (clash p d) ds || any (clash_seen p seen) ds)
unfolding any clash clash_seen has_account
clash_seen-cons p d seen [] = refl
clash_seen-cons p d seen (e ∷ ds) = ground (arith, clash_seen-cons p d seen ds)

accepts_from_lem :
    (p : Plugins) (seen : List (String × Option Value)) (ds : List Destination)
    → accepts_from p seen ds ≡ not (any (clash_seen p seen) ds || some_clash p ds)
unfolding accepts_from any some_clash clash_seen
accepts_from_lem p seen [] = refl
accepts_from_lem p seen (d ∷ ds) = ground (
  arith,
  accepts_from_lem p ((d.plugin_name, account_of d) ∷ seen) ds,
  clash_seen-cons p d seen ds,
)

any_none : (p : Plugins) (ds : List Destination) → any (clash_seen p []) ds ≡ false
unfolding any clash_seen has_account
any_none p [] = refl
any_none p (d ∷ ds) = any_none p ds

-- Destinations are accepted exactly when no two of them, at any two places of the list, are of one
-- plugin that allows an account once and of one account, a missing account number being an account
-- too.
pub duplicates_refused :
    (p : Plugins) (ds : List Destination)
    → validate_no_duplicate_destinations p ds ≡ not (some_clash p ds)
unfolding validate_no_duplicate_destinations
duplicates_refused p ds = ground (arith, accepts_from_lem p [] ds, any_none p ds)
