-- ===== src/Tenants/Tests.antt =====
-- Two organisations, and requests on them.
use django_boilerplate.Prelude.{
  false, Bool, ◌≡◌, ◌⊎◌, refl, String, true, none, some, [], ◌∷◌, strip,
}
use django_boilerplate.Permissions.{extract_roles_from_claims, given, is_org_admin_for_org}
use django_boilerplate.Tenants.{
  Org, Division, Team, Membership, Database, active, inherit, created, forbidden, name_error,
  division_error,
}
use django_boilerplate.Tenants.Teams.{create_team, create_error}
use django_boilerplate.Tenants.Divisions.{org_delete_division, delete_division}
use django_boilerplate.Tenants.Members.{MembershipAttrs}
use django_boilerplate.Tenants.Requests.{
  OrgAction, team_post, division_delete, act, Caller, org_request,
}
use django_boilerplate.Listing.{absent}
use django_boilerplate.Tenants.Listings.{
  Query, org_list_teams, org_list_members, org_division_teams,
}
use django_boilerplate.Tenants.Listings.Shown.{ShowsOwn, listings-ShowsOwn}
use django_boilerplate.Tenants.Valid.{IsValid, IsFresh}
use django_boilerplate.Tenants.Valid.Kept.{here, next, org_step, Reach-IsValid}
use django_boilerplate.Tenants.Isolated.{SameElsewhere}
use django_boilerplate.Tenants.Isolated.Granted.{MayAct, tenant_isolation}

abbrev org : String → Org
org id = record { id = id; name = id; status = active; license_tier = "free"; feature_flags = "{}" }

abbrev division : (id org_id : String) → Division
division id org_id = record {
  id = id;
  org_id = org_id;
  name = id;
  billing_mode = inherit;
  license_tier = "";
  feature_flags = "{}";
  billing_email = none;
}

abbrev lab_team : Team
lab_team = record { id = "t1"; org_id = "acme"; division_id = some "lab"; name = "red" }

abbrev loose_team : Team
loose_team = record { id = "t2"; org_id = "acme"; division_id = none; name = "red" }

abbrev member : Membership
member = record {
  id = "m1";
  user_id = "ann";
  org_id = "acme";
  division_id = none;
  team_id = none;
  org_roles = [];
  division_roles = [];
  team_roles = [];
}

abbrev database : Database
database = record {
  users = "ann" ∷ [];
  orgs = org "acme" ∷ org "other" ∷ [];
  divisions = division "lab" "acme" ∷ division "shop" "other" ∷ [];
  teams = lab_team ∷ loose_team ∷ [];
  memberships = member ∷ [];
}

database-IsValid : IsValid database
database-IsValid = record {
  divisions_unique = (refl, (refl, tt));
  teams_unique = (refl, (refl, tt));
  memberships_unique = (refl, tt);
  teams_within = (refl, (tt, tt));
  members_divisions = (tt, tt);
  members_teams = (tt, tt);
}

abbrev admin_of : String → Caller
admin_of o = record {
  is_authenticated = true;
  claims = record {
    sub = some "ann";
    realm_access_roles = "org_admin" ∷ [];
    realm_roles = [];
    client_roles = [];
    roles = [];
    org_id = some o;
  };
}

abbrev blue : OrgAction
blue = team_post (record { org = "other"; division = some "lab"; name = " blue " })

-- The division of another organisation's team is refused, and the caller is held to the URL.
created_run : (org_request (admin_of "acme") "acme" blue "t3" database).0 ≡ created "t3"
unfolding org_request act is_org_admin_for_org extract_roles_from_claims given create_team
    create_error name_error division_error strip
created_run = refl

denied_run : org_request (admin_of "other") "acme" blue "t3" database ≡ (forbidden, database)
unfolding org_request is_org_admin_for_org extract_roles_from_claims given
denied_run = refl

cascade_run : (org_delete_division "acme" "lab" database).1.teams ≡ loose_team ∷ []
unfolding org_delete_division delete_division
cascade_run = refl

t4-IsFresh : IsFresh "t4" (org_request (admin_of "acme") "acme" blue "t3" database).1
unfolding org_request act is_org_admin_for_org extract_roles_from_claims given create_team
    create_error name_error division_error strip
t4-IsFresh = (refl, refl, refl)

Reach-IsValid_example :
    IsValid
      (org_request
        (admin_of "acme")
        "acme"
        (division_delete "lab")
        "t4"
        (org_request (admin_of "acme") "acme" blue "t3" database).1).1
Reach-IsValid_example = Reach-IsValid database-IsValid (
    next (next here (org_step (admin_of "acme") "acme" blue "t3" database (refl, refl, refl))) (
      org_step (admin_of "acme") "acme" (division_delete "lab") "t4"
        (org_request (admin_of "acme") "acme" blue "t3" database).1 t4-IsFresh))

tenant_isolation_example :
    ((org_request (admin_of "acme") "acme" (division_delete "lab") "t3" database).1 ≡ database)
    ⊎ (MayAct database database-IsValid "acme" "t3" (admin_of "acme")
        × SameElsewhere "acme" database
            (org_request (admin_of "acme") "acme" (division_delete "lab") "t3" database).1)
tenant_isolation_example =
    tenant_isolation database database-IsValid "acme" "t3" (admin_of "acme") (division_delete "lab")

abbrev two_red : Database
two_red = record database {
  teams = lab_team ∷ record lab_team { id = "t5"; division_id = none } ∷ [];
}

abbrev joining : MembershipAttrs
joining = record {
  user = "ann";
  org = "acme";
  division = none;
  team = none;
  org_roles = [];
  division_roles = [];
  team_roles = [];
}

abbrev everything : Query
everything = record {
  search = none;
  org_id = none;
  user_id = none;
  team_id = none;
  division_id = none;
  status = none;
  license_tier = none;
  billing_mode = none;
  limit = absent;
  offset = absent;
}

abbrev any_key : String → Bool
any_key k = true

abbrev no_match : String → String → Bool
no_match s t = false

listings-ShowsOwn_example :
    ShowsOwn any_key no_match no_match database database-IsValid "acme" everything
      (admin_of "acme")
      (λ t. t.org_id)
      (org_list_teams any_key no_match no_match (admin_of "acme") "acme" everything database)
    × ShowsOwn any_key no_match no_match database database-IsValid "acme" everything
        (admin_of "acme")
        (λ m. m.org_id)
        (org_list_members any_key no_match no_match (admin_of "acme") "acme" everything database)
    × ShowsOwn any_key no_match no_match database database-IsValid "acme" everything
        (admin_of "acme")
        (λ t. t.org_id)
        (org_division_teams any_key no_match no_match
          (admin_of "acme")
          "acme"
          "lab"
          everything
          database)
listings-ShowsOwn_example =
    listings-ShowsOwn any_key no_match no_match database database-IsValid "acme" everything
      (admin_of "acme") "lab"
