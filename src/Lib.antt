-- ===== src/Lib.antt =====
-- Verification of the backend of a Django boilerplate (backend/api): its access control and its
-- accounting, from the throttles to the audit log.
--
-- The parts and how they interact. Requests come in under throttles that keep histories in Django's
-- cache; a login checks an account, counts its failures and locks it, and issues tokens that are rows
-- of a table; the second factor, the password reset and the sessions work on the same tables. Requests of
-- programs are signed with access keys, whose nonces are in the cache, or carry API keys, whose number a
-- license limits. Mutating requests are let through once for an idempotency key and tasks are executed
-- once for their arguments, again by the cache. Bearer tokens name a user, for whom an administrator may
-- act. Administrators of the platform and of an organisation change its divisions, teams and members; an
-- event is delivered to the organisation's webhooks, through a guard on addresses. Some columns are
-- encrypted. The webhook of Stripe sets licenses. The audit log signs and chains its entries.
--
-- Files. A part's state is a record and its operations are functions on it; a view returns its reply and
-- the state after it. What the code draws at random, the clock and the results of other services are
-- arguments. A child module has the name of what it proves, and the examples are in the modules Tests.
--   Prelude      shared names, tests on numbers, lists, texts and dictionaries
--   Cache        the cache as an interface with its documented behaviour; Cache/Table meets it
--   Crypto       SHA-256 and HMAC as an interface; Crypto/Toy meets it
--   Throttle     backend/api/throttling.py, throttling_api_keys.py and throttling_mfa.py: Window is their
--                sliding window, ApiKey, Org and Mfa the throttles (allow_request, wait,
--                increment_mfa_failures)
--   Licensing    backend/api/licensing.py (get_effective_license, get_division_license), Stored its
--                get_license and update_license over Settings of models.py, and the limits that the
--                throttles read
--   Listing      limit, offset and the slice of the listing views
--   Audit        backend/api/audit_integrity.py (sign_and_save, verify_chain_integrity and what they use)
--                and AuditLog.save of backend/api/models.py; Views is backend/api/views_audit.py,
--                Entries backend/api/audit.py
--   Billing      StripeWebhookView of backend/api/views_licensing.py: Signature is
--                _verify_stripe_signature, Handlers the view, and the root what it looks up and sets
--   Auth         backend/api/models_local_auth.py, models_mfa.py and local_jwt.py: the tables; Profile is
--                LocalUserProfile, Tokens the two kinds of token, Login and Session the views of
--                views_local_auth.py, Register its RegisterView, Reset those of views_password_reset.py,
--                Mfa those of views_mfa.py, Admin those of views_admin_users.py
--   Ssrf         backend/api/ssrf.py (validate_webhook_url, safe_request); a call of the library requests
--                is a value, and what the library does with it, redirects included, an argument
--   AccessKey    backend/api/auth_access_key.py (authenticate; Header is _parse_header) and
--                models_access_keys.py
--   Rows         tables with a key and an organisation, for Tenants
--   Tenants      backend/api/views_admin_{orgs,divisions,teams,memberships}.py, their serializers_admin_*.py
--                and views_org_{divisions,teams,members}.py: Orgs, Divisions, Teams and Members are the
--                operations on a table, Requests the requests with their permission (org_request and act,
--                admin_request and administer), Listings the listings
--   Bearer       backend/api/auth.py (authenticate of both classes) and impersonation.py; Found is which
--                claims and users they accept
--   Webhooks     backend/api/webhooks.py (dispatch_webhook), deliver_webhook of tasks.py, and
--                WebhookTestView of views_webhooks.py
--   Encryption   backend/api/encryption.py; Keys is the interface of Fernet
--   ApiKeys      backend/api/views_api_keys.py (create and revoke under the quota)
--   Idempotency  backend/api/idempotency.py (process_request)
--   Tasks        idempotent_task of backend/api/tasks.py
--   Lockouts     check_mass_lockout_task of backend/api/tasks_lockout.py and get_ip_summary of
--                lockout_tracking.py
--   MfaPolicy    backend/api/mfa.py, and _attach_mfa_claims of auth.py
--   Permissions  the role classes of backend/api/permissions.py and permissions_org.py
--
-- Conventions and bounds. Instants are natural numbers of microseconds; a duration is `seconds n`. Python's
-- subtraction on instants is written as an addition on the other side. Loops are recursions on their list
-- or text, so no fuel is needed; the retries of a task are a recursion on their number. A lookup by
-- `objects.get` finds no row, one, or many, and the code's
-- exceptions on the first and the last are replies. Rows are saved over the rows with their key. Letter
-- case, white space and digits are those of ASCII.
--
-- Not modelled: fields that a serializer only copies, the views that show one row, emails and log lines,
-- the concurrency of requests (each handler runs to its end), Keycloak, Cerbos, the calls of Stripe and
-- of the social providers, the billing and licensing views below an organisation's URL, the CMS pages
-- and the frontend. Third-party code is an argument: password hashes, pyotp, Fernet, the encoding of
-- tokens, the DNS, requests, the searches of the database, and the parsing of JSON, dates, URLs and
-- addresses.
pub mod Prelude
pub mod Cache
pub mod Tenants
pub mod Throttle
pub mod Listing
pub mod Licensing
pub mod Crypto
pub mod Audit
pub mod Auth
pub mod Rows
pub mod Ssrf
pub mod AccessKey
pub mod ApiKeys
pub mod Bearer
pub mod Billing
pub mod Encryption
pub mod Idempotency
pub mod Tasks
pub mod Lockouts
pub mod MfaPolicy
pub mod Permissions
pub mod Webhooks
