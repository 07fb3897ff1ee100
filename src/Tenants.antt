-- ===== src/Tenants.antt =====
-- Organisations, their divisions, teams and members: the tables of api/models.py, and what the
-- serializers of api/serializers_admin_teams.py, serializers_admin_divisions.py and
-- serializers_admin_memberships.py check before a row is written. A row has its identifier as a text.
pub mod Teams
pub mod Divisions
pub mod Members
pub mod Orgs
pub mod Requests
pub mod Valid
pub mod Isolated
pub mod Listings
mod Tests
use django_boilerplate.Prelude.{
  String, Bool, true, false, not, ◌&&◌, Option, none, some, List, ◌==◌, any, contains, strip,
  if◌then◌else◌,
}
use django_boilerplate.Rows.{owner, has_id, change}

pub data Status : Type 0 where
  active inactive : Status

pub data BillingMode : Type 0 where
  inherit independent : BillingMode

-- `feature_flags` is JSON, as its text.
pub record Org : Type 0 where
  pub id : String
  pub name : String
  pub status : Status
  pub license_tier : String
  pub feature_flags : String

pub record Division : Type 0 where
  pub id : String
  pub org_id : String
  pub name : String
  pub billing_mode : BillingMode
  pub license_tier : String
  pub feature_flags : String
  pub billing_email : Option String

pub record Team : Type 0 where
  pub id : String
  pub org_id : String
  pub division_id : Option String
  pub name : String

pub record Membership : Type 0 where
  pub id : String
  pub user_id : String
  pub org_id : String
  pub division_id : Option String
  pub team_id : Option String
  pub org_roles : List String
  pub division_roles : List String
  pub team_roles : List String

pub record Database : Type 0 where
  pub users : List String
  pub orgs : List Org
  pub divisions : List Division
  pub teams : List Team
  pub memberships : List Membership

abbrev pub division_owner : String → List Division → Option String
division_owner = owner (λ d. d.id) (λ d. d.org_id)

abbrev pub team_owner : String → List Team → Option String
team_owner = owner (λ t. t.id) (λ t. t.org_id)

abbrev pub change_division : String → (Division → Division) → List Division → List Division
change_division = change (λ d. d.id) (λ d. d.org_id)

abbrev pub change_team : String → (Team → Team) → List Team → List Team
change_team = change (λ t. t.id) (λ t. t.org_id)

abbrev pub change_membership :
    String → (Membership → Membership) → List Membership → List Membership
change_membership = change (λ m. m.id) (λ m. m.org_id)

abbrev pub change_org : String → (Org → Org) → List Org → List Org
change_org = change (λ o. o.id) (λ o. o.id)

abbrev pub has_org : Database → String → Bool
has_org db o = has_id (λ (x : Org). x.id) (λ x. x.id) o db.orgs

-- A serializer's error; where there are several, the first is kept.
pub data Invalid : Type 0 where
  required : Invalid
  empty_name : Invalid
  name_taken : Invalid
  already_exists : Invalid
  unknown_user : Invalid
  unknown_org : Invalid
  unknown_row : Invalid
  foreign_row : Invalid

pub data Reply : Type 0 where
  created : (id : String) → Reply
  updated : Reply
  deleted : Reply
  removed : List Membership → Reply
  not_found : Reply
  invalid : Invalid → Reply
  forbidden : Reply
  integrity_error : Reply
  type_error : Reply

infixr 30 ◌orelse◌
abbrev pub ◌orelse◌ : Option Invalid → Option Invalid → Option Invalid
none orelse e = e
some i orelse e = some i

abbrev pub refuse_if : Bool → Invalid → Option Invalid
refuse_if b i = if b then some i else none

-- `validate_name`
unfoldable pub name_error : String → Option Invalid
name_error value = refuse_if (strip value == "") empty_name

abbrev pub same_or : String → Option String → Option Invalid
same_or org none = some unknown_row
same_or org (some o) = refuse_if (not (o == org)) foreign_row

-- A division that is given is one of the organisation.
unfoldable pub division_error : List Division → (org : String) → Option String → Option Invalid
division_error ds org none = none
division_error ds org (some d) = same_or org (division_owner d ds)

unfoldable pub team_error : List Team → (org : String) → Option String → Option Invalid
team_error ts org none = none
team_error ts org (some t) = same_or org (team_owner t ts)

-- An equality of columns, in which null is equal to null as in `filter(division=None)`.
abbrev pub same_null : Option String → Option String → Bool
same_null none none = true
same_null none (some b) = false
same_null (some a) none = false
same_null (some a) (some b) = a == b

-- An equality of columns in a unique constraint, where no null is equal to another.
abbrev pub same_key : Option String → Option String → Bool
same_key (some a) (some b) = a == b
same_key _ _ = false

abbrev pub given_or {ℓ} : {A : Type ℓ} → Option A → A → A
given_or none x = x
given_or (some y) x = y
