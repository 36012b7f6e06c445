-- ===== src/Issuance/Domains.antt =====
-- Which domains a request is checked for.
use lemur.Prelude.{
  String, Bool, true, false, not, ◌&&◌, ◌||◌, ◌≡◌, refl, List, [], ◌∷◌, ◌==◌, string_eq,
  if◌then◌else◌, contains, all, all-contains, arith,
}
use lemur.Prelude.Text.{is_empty}
use lemur.Issuance.{
  San, dns, other, Verdict, granted, denied, broken, Site, is_authorized_for_domain, and_then,
  allowed_names, allowed_issuance_for_domain,
}

-- The DNS names among the alternative names.
unfoldable pub dns_names : List San → List String
dns_names [] = []
dns_names (dns v ∷ names) = v ∷ dns_names names
dns_names (other v ∷ names) = dns_names names

-- The domains of a request: its DNS names, and its common name unless it is missing.
unfoldable pub domains : String → List San → List String
domains cn names = if is_empty cn then dns_names names else cn ∷ dns_names names

abbrev pub is_granted : Verdict → Bool
is_granted granted = true
is_granted _ = false

unfoldable pub may_issue : Site → String → Bool
may_issue w name = is_granted (is_authorized_for_domain w name)

is_granted-and_then : (a b : Verdict) → is_granted (and_then a b) ≡ (is_granted a && is_granted b)
is_granted-and_then granted b = refl
is_granted-and_then denied b = refl
is_granted-and_then broken b = refl

allowed_names_lem :
    (w : Site) (cn : String) (check_cn : Bool) (names : List San)
    → is_granted (allowed_names w cn check_cn names) ≡ (
        all (may_issue w) (dns_names names)
        && (may_issue w cn || (not check_cn || contains cn (dns_names names))))
unfolding allowed_names all dns_names may_issue contains
allowed_names_lem w cn check_cn [] = ground arith
allowed_names_lem w cn check_cn (other v ∷ names) = allowed_names_lem w cn check_cn names
allowed_names_lem w cn check_cn (dns v ∷ names) = ground (
  arith,
  is_granted-and_then (is_authorized_for_domain w v)
      (allowed_names w cn (if v == cn then false else check_cn) names),
  allowed_names_lem w cn (if v == cn then false else check_cn) names,
)

-- The test of the domains passes exactly when each domain of the request, its common name included
-- whether it is repeated among the alternative names or not, is granted by the provider.
pub allowed_issuance_is_all :
    (w : Site) (cn : String) (names : List San)
    → is_granted (allowed_issuance_for_domain w cn names) ≡ all (may_issue w) (domains cn names)
unfolding allowed_issuance_for_domain domains all
allowed_issuance_is_all w cn names = ground (
  arith,
  allowed_names_lem w cn (not (is_empty cn)) names,
  all-contains (may_issue w) cn (dns_names names),
)
