-- ===== src/Certificates/Access.antt =====
-- Who may act on a certificate through the views.
use lemur.Prelude.{Bool, true, ◌||◌, ◌==◌, nat_eq}
use lemur.Auth.Permissions.{Account}
use lemur.Auth.Permissions.Grants.{has_role, has_some_role}
use lemur.Certificates.{Certificate}
use lemur.Certificates.Views.{Request, export}

-- The creator, and who has the role "admin", "creator" or a role of the certificate, in its spelling
-- or in lower case.
unfoldable pub is_entitled : Account → Certificate → Bool
is_entitled user c =
    user.id == c.user
    || (has_role "admin" user.roles
        || (has_role "creator" user.roles || has_some_role c.roles user.roles))

-- Whether the handler asks for the permission: an export does where its plugin requires the key.
unfoldable pub asks_permission : Request → Bool
asks_permission (export requires_key) = requires_key
asks_permission _ = true
