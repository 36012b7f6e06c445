-- ===== src/Issuance/Orders.antt =====
-- When an issuer is asked for a certificate.
use lemur.Prelude.{
  ℕ, String, ◌+◌, not, ◌&&◌, ◌||◌, ◌≡◌, refl, Option, none, some, Option-cases, inl, inr, Bool,
  true, false, List, [], ◌∷◌, ◌++◌, string_eq, nat_eq, if◌then◌else◌, all, arith,
}
use lemur.Prelude.Result.{Result, ok, err}
use lemur.Auth.Permissions.{RoleRef, Account}
use lemur.Auth.Permissions.Grants.{has_role, has_any_role, can-configured, can-authority_permission}
use lemur.Certificates.{validate_no_duplicate_destinations}
use lemur.Directory.{Directory}
use lemur.Issuance.{
  Order, Minted, failed, ordered, signed, Verdict, granted, denied, broken, Site, Db, Trouble,
  Created, certificate, pending_certificate, is_valid_owner, create_minted, create_from, create,
  mint, csr_of,
}
use lemur.Issuance.Post.{
  is_admin_or_global_cert_issuer, is_private_authority, str_role, check_domains, log_created,
  post_checked, may_use, post,
}
use lemur.Issuance.Domains.{is_granted, may_issue, domains, allowed_issuance_is_all}

-- Whether a request is in order: the user is "admin" or "operator" where that is enforced, the owner
-- is valid, the user is "admin" or has a role of the authority, and each domain is granted, but for
-- an "admin", a "global_cert_issuer" and a private authority.
unfoldable pub is_in_order : Site → Account → Order → Directory → Bool
is_in_order w user o d =
    ((not w.config.strict_role_enforcement
        || (has_role "admin" user.roles || has_role "operator" user.roles))
      && is_valid_owner w o.owner)
    && ((has_role "admin" user.roles
          || has_any_role (o.authority.roles ++ str_role d o.authority.owner ∷ []) user.roles)
        && ((has_role "admin" user.roles || has_role "global_cert_issuer" user.roles)
            || (is_private_authority w o.authority
                || all (may_issue w) (domains o.common_name o.names))))

admin_or_global_lem :
    (roles : List RoleRef)
    → is_admin_or_global_cert_issuer roles
      ≡ (has_role "admin" roles || has_role "global_cert_issuer" roles)
unfolding is_admin_or_global_cert_issuer has_role
admin_or_global_lem [] = refl
admin_or_global_lem (r ∷ roles) = ground (arith, admin_or_global_lem roles)

check_domains_lem :
    (w : Site) (user : Account) (o : Order)
    → is_granted (check_domains w user o) ≡ (
        (has_role "admin" user.roles || has_role "global_cert_issuer" user.roles)
        || (is_private_authority w o.authority
            || all (may_issue w) (domains o.common_name o.names)))
unfolding check_domains
check_domains_lem w user o =
    ground (arith, admin_or_global_lem user.roles, allowed_issuance_is_all w o.common_name o.names)

requests-create_minted :
    (w : Site) (creator : ℕ) (o : Order) (m : Minted) (csr : String) (db : Db)
    → (create_minted w creator o m csr db).1.requests ≡ db.requests
unfolding create_minted
requests-create_minted w creator o failed csr db = refl
requests-create_minted w creator o ordered csr db = refl
requests-create_minted w creator o (signed body) csr db = refl

-- Whether there is a request for signing: the order has one, or it can be made.
abbrev pub is_there : Option String → Bool
is_there none = false
is_there (some csr) = true

requests-create_from :
    (w : Site) (creator : ℕ) (o : Order) (db : Db)
    → (create_from w creator o (mint w o) db).1.requests
      ≡ (if is_there (csr_of w o) then db.requests + 1 else db.requests)
unfolding create_from mint
requests-create_from w creator o db = elim (Option-cases (csr_of w o)) [
  | inl e ↦ rw (mint, e) refl
  | inr (csr, e) ↦
      rw (mint, e)
        (requests-create_minted w creator o (w.create_certificate csr) csr
          (record db { requests = db.requests + 1 }))
]

requests-create :
    (w : Site) (creator : ℕ) (o : Order) (db : Db)
    → (create w creator o db).1.requests ≡ (
        if validate_no_duplicate_destinations w.plugins o.destinations && is_there (csr_of w o)
        then db.requests + 1
        else db.requests)
unfolding create
requests-create w creator o db = ground (arith, requests-create_from w creator o db)

requests-log_created : (a : Result Trouble Created × Db) → (log_created a).1.requests ≡ a.1.requests
requests-log_created (err e, db) = refl
requests-log_created (ok (certificate row), db) = refl
requests-log_created (ok (pending_certificate row), db) = refl

requests-post_checked :
    (v : Verdict) (a : Result Trouble Created × Db) (db : Db)
    → (post_checked v a db).1.requests ≡ (if is_granted v then a.1.requests else db.requests)
requests-post_checked granted a db = requests-log_created a
requests-post_checked denied a db = refl
requests-post_checked broken a db = refl

-- An issuer is asked for a certificate exactly when the request is in order, it has a request for
-- signing or one can be made, and `validate_no_duplicate_destinations` accepts its destinations: no
-- two are of one account and of one plugin that takes one certificate per account. It is then asked
-- once.
pub post_asks_once :
    (w : Site) (user : Account) (o : Order) (db : Db)
    → (post w user o db).1.requests ≡ (
        if is_in_order w user o db.directory
          && (validate_no_duplicate_destinations w.plugins o.destinations && is_there (csr_of w o))
        then db.requests + 1
        else db.requests)
unfolding post is_in_order may_use
post_asks_once w user o db = ground (
  arith,
  (can-configured w.principal w.config user).0,
  can-authority_permission w.principal w.str o.authority.id
      (o.authority.roles ++ str_role db.directory o.authority.owner ∷ []) user,
  check_domains_lem w user o,
  requests-create w user.id o db,
  requests-post_checked (check_domains w user o) (create w user.id o db) db,
)
