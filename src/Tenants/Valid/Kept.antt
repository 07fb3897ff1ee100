-- ===== src/Tenants/Valid/Kept.antt =====
-- Every request keeps the tables of organisations valid, and so does every run of them.
use django_boilerplate.Prelude.{String, some, if-cases}
use django_boilerplate.Permissions.{is_org_admin_for_org, is_platform_admin}
use django_boilerplate.Tenants.{Database, Reply}
use django_boilerplate.Tenants.Orgs.Kept.{
  create_org-IsValid, update_org-IsValid, deactivate_org-IsValid,
}
use django_boilerplate.Tenants.Teams.Kept.{
  create_team-IsValid, admin_update_team-IsValid, org_update_team-IsValid,
  admin_delete_team-IsValid, org_delete_team-IsValid,
}
use django_boilerplate.Tenants.Divisions.Kept.{
  create_division-IsValid, admin_update_division-IsValid, org_update_division-IsValid,
  admin_delete_division-IsValid, org_delete_division-IsValid,
}
use django_boilerplate.Tenants.Members.Kept.{
  post-IsValid, remove_member-IsValid, update_membership-IsValid, delete_membership-IsValid,
}
use django_boilerplate.Tenants.Requests.{
  OrgAction, AdminAction, team_post, team_put, team_delete, division_post, division_put,
  division_delete, member_post, member_delete, org_post, org_put, org_delete, membership_post,
  membership_put, membership_delete, act, administer, Caller, org_request, admin_request,
}
use django_boilerplate.Tenants.Valid.{IsValid, IsFresh}

module _ (id : String) (db : Database) (fresh : IsFresh id db) (v : IsValid db) where
  act-IsValid : (org : String) (a : OrgAction) → IsValid (act org a id db).1
  unfolding act
  act-IsValid org (team_post a) = create_team-IsValid db v (record a { org = org }) id fresh.1
  act-IsValid org (team_put t c) = org_update_team-IsValid db v org t c
  act-IsValid org (team_delete t) = org_delete_team-IsValid db v org t
  act-IsValid org (division_post a) =
      create_division-IsValid db v (record a { org = org }) id fresh.0
  act-IsValid org (division_put partial d c) = org_update_division-IsValid db v partial org d c
  act-IsValid org (division_delete d) = org_delete_division-IsValid db v org d
  act-IsValid org (member_post a) = post-IsValid db v (record a { org = org }) id fresh.2
  act-IsValid org (member_delete user) = remove_member-IsValid db v org user

  administer-IsValid : (a : AdminAction) → IsValid (administer a id db).1
  unfolding administer
  administer-IsValid (org_post a) = create_org-IsValid db v a id
  administer-IsValid (org_put o c) = update_org-IsValid db v o c
  administer-IsValid (org_delete o) = deactivate_org-IsValid db v o
  administer-IsValid (AdminAction.team_post a) = create_team-IsValid db v a id fresh.1
  administer-IsValid (AdminAction.team_put t c) = admin_update_team-IsValid db v t c
  administer-IsValid (AdminAction.team_delete t) = admin_delete_team-IsValid db v t
  administer-IsValid (AdminAction.division_post a) = create_division-IsValid db v a id fresh.0
  administer-IsValid (AdminAction.division_put partial d c) =
      admin_update_division-IsValid db v partial d c
  administer-IsValid (AdminAction.division_delete d) = admin_delete_division-IsValid db v d
  administer-IsValid (membership_post a) = post-IsValid db v a id fresh.2
  administer-IsValid (membership_put m c) = update_membership-IsValid db v m c
  administer-IsValid (membership_delete m) = delete_membership-IsValid db v m

  org_request-IsValid :
      (caller : Caller) (org : String) (a : OrgAction) → IsValid (org_request caller org a id db).1
  unfolding org_request
  org_request-IsValid caller org a =
      if-cases (λ (r : Reply × Database). IsValid r.1)
        (is_org_admin_for_org caller.is_authenticated caller.claims (some org)) _ _
        (λ allowed. act-IsValid org a) (λ denied. v)

  admin_request-IsValid :
      (caller : Caller) (a : AdminAction) → IsValid (admin_request caller a id db).1
  unfolding admin_request
  admin_request-IsValid caller a =
      if-cases (λ (r : Reply × Database). IsValid r.1)
        (is_platform_admin caller.is_authenticated caller.claims) _ _
        (λ allowed. administer-IsValid a) (λ denied. v)

-- A request of some caller, with an identifier for a new row that no table has.
pub data Step : Database → Database → Type 0 where
  org_step :
      (caller : Caller) (org : String) (a : OrgAction) (id : String) (db : Database)
      → IsFresh id db
      → Step db (org_request caller org a id db).1
  admin_step :
      (caller : Caller) (a : AdminAction) (id : String) (db : Database)
      → IsFresh id db
      → Step db (admin_request caller a id db).1

pub data Reach (db : Database) : Database → Type 0 where
  here : Reach db db
  next : {after last : Database} → Reach db after → Step after last → Reach db last

Step-IsValid : {db after : Database} → Step db after → IsValid db → IsValid after
Step-IsValid (org_step caller org a id db fresh) v = org_request-IsValid id db fresh v caller org a
Step-IsValid (admin_step caller a id db fresh) v = admin_request-IsValid id db fresh v caller a

-- Requests of any callers come one after the other to valid tables, and every new row has a new
-- identifier. Then the tables stay valid: the division of a team, and the division and the team of a
-- membership, exist and belong to its organisation, and keys are unique.
pub Reach-IsValid : {db after : Database} → IsValid db → Reach db after → IsValid after
Reach-IsValid v here = v
Reach-IsValid v (next r s) = Step-IsValid s (Reach-IsValid v r)
