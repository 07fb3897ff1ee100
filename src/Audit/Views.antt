-- ===== src/Audit/Views.antt =====
-- AuditLogListView, AuditLogExportView and AuditChainVerificationView of api/views_audit.py. The table
-- is in the order of its listing, the newest entry first; `instant` is the time of an entry's
-- timestamp, and `parse_datetime` is Django's.
pub mod Listed
mod Tests
use django_boilerplate.Prelude.{
  ◌||◌, ℕ, String, Bool, true, false, not, ◌&&◌, Option, none, some, List, [], ◌∷◌, ◌==◌, leb, ltb,
  pos, ℤ, rows, length, if◌then◌else◌, Instant,
}
use django_boilerplate.Crypto.{Digests}
use django_boilerplate.Listing.{Number, Page, page, int_or, at_most, slice}
use django_boilerplate.Permissions.{
  TokenClaims, has_role, given, is_audit_viewer, is_platform_admin,
}
use django_boilerplate.Audit.{AuditLog, is_in_org}
use django_boilerplate.Audit.Verify.{Report, verify_chain_integrity}

pub record Query : Type 0 where
  pub org_id : Option String
  pub actor_id : Option String
  pub resource_type : Option String
  pub resource_id : Option String
  pub action : Option String
  pub start_date : Option String
  pub end_date : Option String
  pub limit : Number
  pub offset : Number

pub data Reply (A : Type 0) : Type 0 where
  forbidden : Reply A
  mfa_required : Reply A
  not_found : Reply A
  server_error : Reply A
  ok : A → Reply A

-- A filter that is given: `if value: filters[name] = value`.
abbrev pub is_value : Option String → String → Bool
is_value none s = true
is_value (some v) s = v == "" || s == v

abbrev pub is_org : Option String → AuditLog → Bool
is_org none e = true
is_org (some org) e = org == "" || is_in_org org e

entries_of : Option String → List AuditLog → List AuditLog
entries_of none log = []
entries_of (some org) log = rows (is_in_org org) log

-- `get_queryset`
unfoldable pub get_queryset : TokenClaims → List AuditLog → List AuditLog
unfolding entries_of
get_queryset c log = if has_role "platform_admin" c then log else entries_of (given c.org_id) log

-- A date that is given and can be read.
date_of : (String → Option Instant) → Option String → Option Instant
date_of parse_datetime none = none
date_of parse_datetime (some s) = if s == "" then none else parse_datetime s

abbrev pub is_from : Option Instant → Instant → Bool
is_from none t = true
is_from (some start) t = leb start t

abbrev pub is_until : Option Instant → Instant → Bool
is_until none t = true
is_until (some end) t = leb t end

module _ (instant : AuditLog → Instant) (parse_datetime : String → Option Instant) where
  unfoldable pub is_dated : Query → AuditLog → Bool
  unfolding date_of
  is_dated q e =
      is_from (date_of parse_datetime q.start_date) (instant e)
      && is_until (date_of parse_datetime q.end_date) (instant e)

  -- The filters of the listing.
  unfoldable pub passes : Query → AuditLog → Bool
  passes q e =
      is_org q.org_id e
      && is_value q.actor_id e.actor_id
      && is_value q.resource_type e.resource_type
      && is_value q.resource_id e.resource_id
      && is_value q.action e.action
      && is_dated q e

  as_reply : {A : Type 0} → Option A → Reply A
  as_reply none = server_error
  as_reply (some a) = ok a

  -- `AuditLogListView.get`
  unfoldable pub list_audit : Bool → TokenClaims → Query → List AuditLog → Reply (Page AuditLog)
  unfolding as_reply
  list_audit authenticated c q log =
      if is_audit_viewer authenticated c
      then as_reply (page q.limit q.offset (rows (passes q) (get_queryset c log)))
      else forbidden

  first_rows : Option ℤ → List AuditLog → Option (List AuditLog)
  first_rows none log = none
  first_rows (some limit) log = slice (pos 0) (at_most 50000 limit) log

  -- `AuditLogExportView.get`; `mfa_level` is `claims.get("mfa_level", 0)`.
  unfoldable pub export :
      Bool → TokenClaims → (mfa_level : ℕ) → Query → List AuditLog → Reply (List AuditLog)
  unfolding as_reply first_rows
  export authenticated c mfa_level q log =
      if not (is_platform_admin authenticated c)
      then forbidden
      else if ltb mfa_level 1
      then mfa_required
      else as_reply
          (first_rows (int_or 10000 q.limit) (rows (λ e. is_org q.org_id e && is_dated q e) log))

module _ (d : Digests) (key : String) where
  chain_reply : Option Report → Reply Report
  chain_reply none = not_found
  chain_reply (some r) = ok r

  -- `AuditChainVerificationView.get`
  unfoldable pub chain_verify :
      Bool → TokenClaims → (start_id end_id org_id : Option String) → List AuditLog → Reply Report
  unfolding chain_reply
  chain_verify authenticated c start_id end_id org_id log =
      if is_platform_admin authenticated c
      then chain_reply (verify_chain_integrity d key start_id end_id org_id log)
      else forbidden
