-- ===== src/Tenants/Requests.antt =====
-- The requests of the views on organisations, with the permission classes that stand before them: those
-- of an organisation's administrator under /api/v1/orgs/{org_id}, and those of the platform's.
use django_boilerplate.Prelude.{String, Bool, some, if◌then◌else◌}
use django_boilerplate.Permissions.{TokenClaims, is_org_admin_for_org, is_platform_admin}
use django_boilerplate.Tenants.{Database, Reply, forbidden}
use django_boilerplate.Tenants.Teams.{
  org_create_team, TeamAttrs, TeamChanges, create_team, org_update_team, org_delete_team,
  admin_update_team, admin_delete_team,
}
use django_boilerplate.Tenants.Divisions.{
  org_create_division, DivisionAttrs, DivisionChanges, create_division, org_update_division,
  org_delete_division, admin_update_division, admin_delete_division,
}
use django_boilerplate.Tenants.Members.{
  org_add_member, MembershipAttrs, MembershipChanges, add_member, remove_member, update_membership,
  delete_membership,
}
use django_boilerplate.Tenants.Orgs.{OrgAttrs, OrgChanges, create_org, update_org, deactivate_org}

-- What a request may do to the teams, divisions and members below an organisation's URL; the license and
-- the billing below it are not among these. The organisation that a request names in its data is replaced
-- by the one of the URL.
pub data OrgAction : Type 0 where
  team_post : TeamAttrs → OrgAction
  team_put : (id : String) → TeamChanges → OrgAction
  team_delete : (id : String) → OrgAction
  division_post : DivisionAttrs → OrgAction
  division_put : (partial : Bool) → (id : String) → DivisionChanges → OrgAction
  division_delete : (id : String) → OrgAction
  member_post : MembershipAttrs → OrgAction
  member_delete : (user : String) → OrgAction

unfoldable pub act : (org : String) → OrgAction → (id : String) → Database → Reply × Database
act org (team_post a) id db = org_create_team org a id db
act org (team_put t c) id db = org_update_team org t c db
act org (team_delete t) id db = org_delete_team org t db
act org (division_post a) id db = org_create_division org a id db
act org (division_put partial d c) id db = org_update_division partial org d c db
act org (division_delete d) id db = org_delete_division org d db
act org (member_post a) id db = org_add_member org a id db
act org (member_delete user) id db = remove_member org user db

pub data AdminAction : Type 0 where
  org_post : OrgAttrs → AdminAction
  org_put : (id : String) → OrgChanges → AdminAction
  org_delete : (id : String) → AdminAction
  team_post : TeamAttrs → AdminAction
  team_put : (id : String) → TeamChanges → AdminAction
  team_delete : (id : String) → AdminAction
  division_post : DivisionAttrs → AdminAction
  division_put : (partial : Bool) → (id : String) → DivisionChanges → AdminAction
  division_delete : (id : String) → AdminAction
  membership_post : MembershipAttrs → AdminAction
  membership_put : (id : String) → MembershipChanges → AdminAction
  membership_delete : (id : String) → AdminAction

unfoldable pub administer : AdminAction → (id : String) → Database → Reply × Database
administer (org_post a) id db = create_org a id db
administer (org_put o c) id db = update_org o c db
administer (org_delete o) id db = deactivate_org o db
administer (AdminAction.team_post a) id db = create_team a id db
administer (AdminAction.team_put t c) id db = admin_update_team t c db
administer (AdminAction.team_delete t) id db = admin_delete_team t db
administer (AdminAction.division_post a) id db = create_division a id db
administer (AdminAction.division_put partial d c) id db = admin_update_division partial d c db
administer (AdminAction.division_delete d) id db = admin_delete_division d db
administer (membership_post a) id db = add_member a id db
administer (membership_put m c) id db = update_membership m c db
administer (membership_delete m) id db = delete_membership m db

pub record Caller : Type 0 where
  pub is_authenticated : Bool
  pub claims : TokenClaims

-- A request under an organisation's URL; `id` is the identifier that a new row would have.
unfoldable pub org_request :
    Caller → (org : String) → OrgAction → (id : String) → Database → Reply × Database
org_request caller org action id db =
    if is_org_admin_for_org caller.is_authenticated caller.claims (some org)
    then act org action id db
    else (forbidden, db)

unfoldable pub admin_request : Caller → AdminAction → (id : String) → Database → Reply × Database
admin_request caller action id db =
    if is_platform_admin caller.is_authenticated caller.claims
    then administer action id db
    else (forbidden, db)
