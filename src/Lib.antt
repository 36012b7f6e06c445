-- ===== src/Lib.antt =====
-- Lemur: a manager of TLS certificates. This library models the core services of the Python package
-- `lemur/`, which are functions over rows of a database and over what plugins return.
--
-- Parts, and how they interact:
--   * Prelude: shared names, Boolean tests, Python's lists and texts, tables of rows, exceptions.
--   * Auth.Permissions: lemur/auth/permissions.py and `on_identity_loaded` of lemur/auth/service.py. A
--     permission is the list of its needs; flask_principal is the parameter `Principal`.
--   * Auth.Tokens, Auth.Segments: `create_token`, `fetch_token_header` and `login_required` of
--     lemur/auth/service.py. An outcome is a response, an uncaught exception, or the call of the view.
--     PyJWT is the parameter `Jwt`. The decorator looks keys up in ApiKeys.
--   * ApiKeys: lemur/api_keys/service.py, a table of keys and the audit log; ApiKeys.Views: the
--     handlers of lemur/api_keys/views.py.
--   * Naming: `get_or_increase_name` of lemur/certificates/models.py.
--   * Pending: lemur/pending_certificates/service.py; Pending.Tasks: the tasks `fetch_acme_cert`,
--     `fetch_all_pending_acme_certs` and `remove_old_acme_certs` of lemur/common/celery.py. The state
--     `Db` has the pending certificates, the certificates, the queue of tasks, the mails and the audit
--     log; what was written before an exception stays written.
--   * Directory: the tables of roles and users; Directory.Roles and Directory.Users are
--     lemur/roles/service.py and lemur/users/service.py.
--   * Sso: `create_user_roles` and `update_user` of lemur/auth/views.py, on the Directory.
--   * Ldap: lemur/auth/ldap.py, on the Directory; the directory server's groups are a parameter.
--   * Notifications: lemur/notifications/messaging.py and lemur/plugins/utils.py: what is due for a
--     certificate; Notifications.Groups the queries and the grouping; Notifications.Messaging the
--     senders with their counters, where a plugin's `send` is a parameter; Notifications.Service
--     lemur/notifications/service.py, where the options keep a name, a value and a default, and `str`
--     of a number is a parameter.
--   * Sources: `find_cert` and `sync_certificates` of lemur/sources/service.py, with the association
--     operations of lemur/certificates/service.py.
--   * Sources.Clean: the commands of lemur/sources/cli.py that clean sources, for sources that were
--     found, with the queries of lemur/certificates/service.py; a plugin's `clean` is a parameter, and
--     a commit succeeds.
--   * Endpoints: `sync_endpoints` and `expire_endpoints` of lemur/sources/service.py, with what they
--     call of lemur/endpoints/service.py; certificates are looked up with `find_cert` of Sources.
--   * Certificates: lemur/certificates/service.py and lemur/certificates/models.py: revocation, change
--     of owner, switches, destinations and their listeners; issuers' and destinations' plugins are the
--     parameter `Plugins`. Certificates.Views: the handlers of lemur/certificates/views.py for one
--     certificate; they ask Auth.Permissions. An exception that nothing catches is the status 500.
--   * Issuance: `create` and `upload` of lemur/certificates/service.py with `is_authorized_for_domain` of
--     lemur/domains/service.py; Issuance.Post: the two handlers of lemur/certificates/views.py that call
--     them. Roles are looked up and made in the Directory; issuers and providers are parameters.
--   * Destinations: lemur/destinations/service.py, with `add_aws_destination_to_sources` of
--     lemur/sources/service.py; the certificates are those of Certificates.
--   * Rotation: `rotate` of lemur/certificates/cli.py with lemur/deployment/service.py and
--     lemur/endpoints/service.py; Rotation.Regional: `rotate_region` and the task `certificate_rotate` of
--     lemur/common/celery.py; Rotation.Reissue: `reissue` and the task `certificate_reissue`. The tables
--     of certificates and endpoints refer to each other by number.
--   * Validity: `convert_validity_years` of lemur/common/missing.py with `is_weekend` of
--     lemur/common/utils.py; the calendar's shift by years is a parameter.
--   * Windows: `column_windows` and `windowed_query` of lemur/common/utils.py.
--   * Tests: each theorem at a concrete input.
--
-- Conventions: a moment is a count of seconds on ℕ, a number of days is in ℤ; a row is found by its
-- number with `find`, and a commit is an update of the table. All loops are recursions on lists, so
-- there is no fuel. The clock is an argument, read once for each call. Destinations are named by their
-- labels, which are taken to differ, although the table does not ask for it; commits succeed.
--
-- Not modelled: schemas and the views that list, the front end, migrations, the plugins that talk to
-- issuers and clouds, the uploads to the destinations of a certificate that is created,
-- logging and metrics, and the thin services over one
-- table (domains, policies, DNS providers).
pub mod ApiKeys
pub mod Auth
pub mod Certificates
pub mod Destinations
pub mod Directory
pub mod Endpoints
pub mod Issuance
pub mod Ldap
pub mod Naming
pub mod Notifications
pub mod Pending
pub mod Prelude
pub mod Rotation
pub mod Sources
pub mod Sso
pub mod Tests
pub mod Validity
pub mod Windows
