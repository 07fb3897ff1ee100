-- ===== src/Audit/Views/Tests.antt =====
-- A viewer of one organisation lists a log of two.
use django_boilerplate.Prelude.{
  ◌≡◌, refl, String, true, false, Option, none, some, List, [], ◌∷◌, pos, Instant,
}
use django_boilerplate.Listing.{absent, Page, page, slice, take, drop}
use django_boilerplate.Permissions.{
  TokenClaims, has_role, is_audit_viewer, is_platform_admin, extract_roles_from_claims, given,
}
use django_boilerplate.Audit.{AuditLog, is_in_org}
use django_boilerplate.Audit.Views.{
  Query, ok, mfa_required, get_queryset, passes, is_dated, list_audit, export,
}
use django_boilerplate.Audit.Views.Listed.{IsOwnPage, listed-IsOwn}

abbrev entry : (id org action : String) → AuditLog
entry id org action = record {
  id = id;
  timestamp = "2025-01-01";
  actor_id = "7";
  actor_email = none;
  org_id = some org;
  action = action;
  resource_type = "Org";
  resource_id = "9";
  changes = "{}";
  metadata = "{}";
  request_id = "";
  signature = "";
  previous_hash = "";
  sequence_number = 1;
  nonce = "";
}

abbrev log : List AuditLog
log = entry "3" "acme" "update" ∷ entry "2" "other" "update" ∷ entry "1" "acme" "create" ∷ []

abbrev claims : String → TokenClaims
claims role = record {
  sub = some "7";
  realm_access_roles = role ∷ [];
  realm_roles = [];
  client_roles = [];
  roles = [];
  org_id = some "acme";
}

abbrev query : Query
query = record {
  org_id = none;
  actor_id = none;
  resource_type = none;
  resource_id = none;
  action = some "update";
  start_date = none;
  end_date = none;
  limit = absent;
  offset = absent;
}

abbrev time : AuditLog → Instant
time e = 0

abbrev no_date : String → Option Instant
no_date s = none

abbrev shown : Page AuditLog
shown = record {
  count = 1;
  limit = pos 50;
  offset = pos 0;
  results = entry "3" "acme" "update" ∷ [];
}

no_platform_admin : has_role "platform_admin" (claims "audit_viewer") ≡ false
unfolding extract_roles_from_claims
no_platform_admin = refl

answered : list_audit time no_date true (claims "audit_viewer") query log ≡ ok shown
unfolding list_audit is_audit_viewer extract_roles_from_claims page slice get_queryset take given
    drop is_in_org passes is_dated
answered = refl

unverified_export : export time no_date true (claims "platform_admin") 0 query log ≡ mfa_required
unfolding export is_platform_admin extract_roles_from_claims
unverified_export = refl

listed-IsOwn_example :
    (is_audit_viewer true (claims "audit_viewer") ≡ true)
    × IsOwnPage time no_date (claims "audit_viewer") query log shown
listed-IsOwn_example =
    listed-IsOwn time no_date true (claims "audit_viewer") query log shown no_platform_admin
      answered
