-- ===== src/Lib.antt =====
-- Verification of tessera: sessions, tokens, login protection, password resets, SMS codes, magic links,
-- MFA, organizations, webhooks, the password policy, the audit log and role-based access control.
--
-- The program keeps its state in a cache (tessera/cache/memory_cache.py) and a database
-- (tessera/db/memory.py), and the managers call both. A manager's method is an action on a state: it
-- gives a result or an error, and what it wrote before an error stays written (Base/Errors.antt).
-- Awaited calls run one after the other. The clock, the random ids and the fresh jtis of a call are
-- arguments.
--
-- Files, with the code that they model:
-- - Base.antt and below: lists, dicts, errors, numbers and strings that the parts share.
-- - Config.antt: tessera/config.py, the fields of AuthConfig and the numeric checks of validate.
-- - Records.antt: the records that are cached or stored; tessera/sessions/session_manager.py, Session.
-- - Cache.antt: tessera/cache/memory_cache.py, InMemoryCache. Cache/Keys.antt has the key templates of the
--   managers, Cache/Laws.antt and Cache/Laws/Operations.antt what each operation does to a key's entry.
-- - Database/Users.antt and Database/Sessions.antt: the users and the sessions of tessera/db/memory.py.
--   Database/Users/ is about the three identifier indexes: one index (Indexed, Changes), all three
--   (Consistent), and runs of calls (Identified).
-- - Security/RateLimit.antt: tessera/utils/security.py, enforce_login_rate_limit, record_login_failure and
--   clear_login_failures; RateLimit/Standing.antt is the machine that they implement.
-- - Security/Tokens.antt: JWTTokenManager. Security/Reset.antt: SecurityManager.
-- - Sessions.antt and Sessions/Api.antt: tessera/sessions/session_manager.py, SessionManager. The task that
--   validate_session schedules is a function of its own, update_last_active, which takes what the others do
--   between its read and its write.
-- - Auth.antt and Auth/Login.antt: tessera/core/auth_manager.py, TraditionalAuthManager.
-- - Audit.antt: the audit log of tessera/db/memory.py. Audit/Logger.antt: tessera/admin/audit_logger.py,
--   AuditLogger; Audit/Logger/Interleaved.antt has the steps of calls that run at the same time.
-- - Rbac.antt and Rbac/Evaluation.antt: tessera/admin/rbac_manager.py; Rbac/Database.antt: the role tables.
-- - Organizations.antt and Organizations/Invitations.antt: tessera/organizations/org_manager.py,
--   OrganizationManager; Organizations/Calls.antt: its calls as data, and the states that they lead to.
--   Owners, Owned, History, Founding, Kept and Accepting below it follow the owners through each call.
--   Database/Organizations.antt and Database/Memberships.antt: the tables of tessera/db/memory.py behind it.
-- - Database/Saml.antt: the SAML tables of tessera/db/memory.py.
-- - Sms.antt: tessera/sms/sms_manager.py, SMSManager.
-- - MagicLink.antt: tessera/passwordless/magic_link.py, MagicLinkManager.
-- - Mfa.antt: tessera/mfa/mfa_setup.py, MFAAuthManager.
-- - Webhooks.antt and below: tessera/webhooks/webhook_manager.py; Endpoints.antt, Delivery.antt and
--   Receiver.antt have WebhookManager. Database/Webhooks.antt: the webhook tables of tessera/db/memory.py.
-- - Passwords.antt and below: tessera/password_security/password_validator.py; Breaches.antt also has
--   hibp_provider.py, and Lists.antt the embedded data.
-- - Tests.antt and below: concrete runs.
--
-- Conventions: a string that is only compared is a number, 0 being the empty string; strings that are
-- taken apart are lists of code points. Times are microseconds, durations seconds. Python's dicts are
-- association lists in insertion order.
--
-- Parameters: PyJWT (encode and decode, with a record of the behaviour that it documents), SHA-256, the
-- password hash, HMAC, SHA-1, the JSON codec, the name service, ipaddress, str.lower and str.strip on unbounded alphabets, the email and SMS providers, urlsplit, urlparse, TOTP and the MFA
-- manager that is passed to the authentication manager.
--
-- Fuel: the walk along parent roles gets one round more than there are roles, and the collection of
-- permissions two more; both are shown to be enough. The loop over the webhook queue has the number of
-- jobs that the program itself allows.
--
-- Not modelled: the SQL, MongoDB, DynamoDB and Redis adapters, HTTP and framework glue, logging, the
-- clients of remote services, the SAML and OIDC protocols, passkeys and the migration of
-- foreign hashes, the login of a user with a legacy `password_algorithm`, and the exception for a text in
-- the webhook queue that is JSON but no job: the queue holds what the manager writes.
pub mod Base
pub mod Config
pub mod Records
pub mod Cache
pub mod Database
pub mod Security
pub mod Sessions
pub mod Auth
pub mod Audit
pub mod Rbac
pub mod Organizations
pub mod Sms
pub mod MagicLink
pub mod Mfa
pub mod Webhooks
pub mod Passwords
pub mod Tests
