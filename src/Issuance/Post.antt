-- ===== src/Issuance/Post.antt =====
-- `post` of `CertificatesList` and of `CertificatesUpload` in lemur/certificates/views.py.
use lemur.Prelude.{
  ℕ, String, Bool, true, false, not, ◌&&◌, ◌||◌, Option, none, some, List, [], ◌∷◌, ◌++◌, ◌==◌,
  string_eq, nat_eq, if◌then◌else◌, contains,
}
use lemur.Prelude.Result.{Result, ok, err}
use lemur.Prelude.Text.{concat}
use lemur.Auth.Permissions.{RoleRef, Account, can, strict_role_permission, authority_permission}
use lemur.Directory.{Directory}
use lemur.Directory.Roles
use lemur.Issuance.{
  Authority, Order, Verdict, granted, denied, broken, Site, Db, Trouble, Created, certificate,
  pending_certificate, is_valid_owner, allowed_issuance_for_domain, create, upload,
}

-- The status, 500 for an exception that nothing catches, and what is created.
pub data Response : Type 0 where
  refused : ℕ → Response
  created : Created → Response

unfoldable pub is_admin_or_global_cert_issuer : List RoleRef → Bool
is_admin_or_global_cert_issuer [] = false
is_admin_or_global_cert_issuer (r ∷ roles) =
    (r.name == "admin" || r.name == "global_cert_issuer") || is_admin_or_global_cert_issuer roles

unfoldable pub is_private_authority : Site → Authority → Bool
is_private_authority w a = contains a.plugin_name w.private_plugins

-- `str(role)` of the row of a role, or of `None`.
unfoldable pub str_role : Directory → String → String
str_role d owner = elim (Roles.get_by_name owner d) [
  | none ↦ "None"
  | some r ↦ concat "Role(name=" (concat r.name ")")
]

-- The test of the domains, which some users and authorities are spared.
unfoldable pub check_domains : Site → Account → Order → Verdict
check_domains w user o =
    let checked = allowed_issuance_for_domain w o.common_name o.names in
    if not (is_admin_or_global_cert_issuer user.roles) && not (is_private_authority w o.authority)
    then checked
    else granted

abbrev pub log_created : Result Trouble Created × Db → Response × Db
log_created (err e, db) = (refused 500, db)
log_created (ok (certificate row), db) =
    (created (certificate row), record db { logs = db.logs ++ ("create_cert", row.id) ∷ [] })
log_created (ok (pending_certificate row), db) = (created (pending_certificate row), db)

abbrev pub post_checked : Verdict → Result Trouble Created × Db → Db → Response × Db
post_checked denied answer db = (refused 403, db)
post_checked broken answer db = (refused 500, db)
post_checked granted answer db = log_created answer

unfoldable pub may_use : Site → Account → Authority → Directory → Bool
may_use w user a d =
    can w.principal (authority_permission w.str a.id (a.roles ++ str_role d a.owner ∷ [])) user

unfoldable pub post : Site → Account → Order → Db → Response × Db
post w user o db =
    let answer = post_checked (check_domains w user o) (create w user.id o db) db in
    if not (can w.principal (strict_role_permission w.config) user)
    then (refused 403, db)
    else if not (is_valid_owner w o.owner)
    then (refused 412, db)
    else if not (may_use w user o.authority db.directory)
    then (refused 403, db)
    else answer

abbrev has_destinations : Order → Bool
has_destinations o = elim o.destinations [ [] ↦ false | _ ∷ _ ↦ true ]

-- The request is not logged.
unfoldable pub post_upload :
    Site → Account → Order → Option Authority → (body : String) → Db → Response × Db
post_upload w user o authority body db =
    let (row, db') = upload user.id o authority body db in
    if not (can w.principal (strict_role_permission w.config) user)
    then (refused 403, db)
    else if has_destinations o && not o.private_key
    then (refused 500, db)
    else (created (certificate row), db')
