-- ===== src/Tenants/Listings.antt =====
-- The listings of api/views_org_teams.py, views_org_members.py, views_org_divisions.py and of
-- views_admin_{orgs,teams,divisions,memberships}.py. Rows are in the order of their creation. `is_uuid` says
-- whether a text is a key, which Django asks of a filter on one; `icontains` is the database's search
-- in a text, and `user_matches` its search in the email and the names of a user.
pub mod Shown
use django_boilerplate.Prelude.{
  String, Bool, true, false, not, ◌&&◌, ◌||◌, Option, none, some, List, ◌==◌, first, int, is_some,
  if◌then◌else◌,
}
use django_boilerplate.Permissions.{is_org_admin_for_org, is_platform_admin}
use django_boilerplate.Listing.{Number, Listed, forbidden, not_found, listed}
use django_boilerplate.Tenants.{
  Status, active, inactive, BillingMode, inherit, independent, Org, Division, Team, Membership,
  Database, has_org, same_null,
}
use django_boilerplate.Tenants.Requests.{Caller}

pub record Query : Type 0 where
  pub search : Option String
  pub org_id : Option String
  pub user_id : Option String
  pub team_id : Option String
  pub division_id : Option String
  pub status : Option String
  pub license_tier : Option String
  pub billing_mode : Option String
  pub limit : Number
  pub offset : Number

abbrev pub status_text : Status → String
status_text active = "active"
status_text inactive = "inactive"

abbrev pub billing_text : BillingMode → String
billing_text inherit = "inherit"
billing_text independent = "independent"

-- `if value: queryset = queryset.filter(column=value)`
abbrev pub is_value : Option String → Option String → Bool
is_value none column = true
is_value (some v) none = v == ""
is_value (some v) (some c) = v == "" || c == v

-- A filter that is not given, or has a value that the test takes.
abbrev pub is_readable : (String → Bool) → Option String → Bool
is_readable ok none = true
is_readable ok (some v) = v == "" || ok v

abbrev pub is_number : String → Bool
is_number v = is_some (int v)

module _ (is_uuid : String → Bool) (icontains user_matches : (search text : String) → Bool) where
  abbrev pub finds : (String → String → Bool) → Option String → String → Bool
  finds matches none text = true
  finds matches (some s) text = s == "" || matches s text

  -- `get` of `OrgTeamListCreateView`
  unfoldable pub org_list_teams : Caller → (org : String) → Query → Database → Listed Team
  org_list_teams caller org q db =
      if is_org_admin_for_org caller.is_authenticated caller.claims (some org)
      then listed (is_readable is_uuid q.division_id) q.limit q.offset
          (λ t.
            t.org_id == org
            && finds icontains q.search t.name
            && is_value q.division_id t.division_id)
          db.teams
      else forbidden

  -- `get` of `OrgMemberListCreateView`
  unfoldable pub org_list_members : Caller → (org : String) → Query → Database → Listed Membership
  org_list_members caller org q db =
      if not (is_org_admin_for_org caller.is_authenticated caller.claims (some org))
      then forbidden
      else if not (has_org db org)
      then not_found
      else listed (is_readable is_uuid q.team_id && is_readable is_uuid q.division_id) q.limit
          q.offset
          (λ m.
            m.org_id == org
            && finds user_matches q.search m.user_id
            && is_value q.team_id m.team_id
            && is_value q.division_id m.division_id)
          db.memberships

  -- `get_queryset` of `OrgDivisionViewSet`
  abbrev pub is_listed_division : (org : String) → Query → Division → Bool
  is_listed_division org q d =
      d.org_id == org
      && finds icontains q.search d.name
      && is_value q.billing_mode (some (billing_text d.billing_mode))

  teams_of : Option Division → Query → Database → Listed Team
  teams_of none q db = not_found
  teams_of (some d) q db =
      listed true q.limit q.offset (λ t. same_null t.division_id (some d.id)) db.teams

  -- `teams` of `OrgDivisionViewSet`
  unfoldable pub org_division_teams : Caller → (org id : String) → Query → Database → Listed Team
  unfolding teams_of
  org_division_teams caller org id q db =
      if is_org_admin_for_org caller.is_authenticated caller.claims (some org)
      then teams_of (first (λ d. d.id == id && is_listed_division org q d) db.divisions) q db
      else forbidden

  -- `get` of `AdminOrgListCreateView`
  unfoldable pub admin_list_orgs : Caller → Query → Database → Listed Org
  admin_list_orgs caller q db =
      if is_platform_admin caller.is_authenticated caller.claims
      then listed true q.limit q.offset
          (λ o.
            finds icontains q.search o.name
            && is_value q.status (some (status_text o.status))
            && is_value q.license_tier (some o.license_tier))
          db.orgs
      else forbidden

  -- `get` of `AdminTeamListCreateView`
  unfoldable pub admin_list_teams : Caller → Query → Database → Listed Team
  admin_list_teams caller q db =
      if is_platform_admin caller.is_authenticated caller.claims
      then listed (is_readable is_uuid q.org_id) q.limit q.offset
          (λ t. finds icontains q.search t.name && is_value q.org_id (some t.org_id)) db.teams
      else forbidden

  -- `get` of `AdminMembershipListCreateView`
  unfoldable pub admin_list_memberships : Caller → Query → Database → Listed Membership
  admin_list_memberships caller q db =
      if is_platform_admin caller.is_authenticated caller.claims
      then listed
          (is_readable is_number q.user_id
            && is_readable is_uuid q.org_id
            && is_readable is_uuid q.team_id)
          q.limit q.offset
          (λ m.
            is_value q.user_id (some m.user_id)
            && is_value q.org_id (some m.org_id)
            && is_value q.team_id m.team_id)
          db.memberships
      else forbidden
