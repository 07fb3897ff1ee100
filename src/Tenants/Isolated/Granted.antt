-- ===== src/Tenants/Isolated/Granted.antt =====
-- What a request under an organisation's URL may change, and who may change it.
use django_boilerplate.Prelude.{◌≡◌, ◌⊎◌, inl, inr, refl, String, true, some, if-cases}
use django_boilerplate.Permissions.{has_role, is_org_admin_for_org}
use django_boilerplate.Permissions.Granted.{IsAdminOf, org_admin_iff}
use django_boilerplate.Tenants.{Database, Reply}
use django_boilerplate.Tenants.Teams.Elsewhere.{
  create_team-SameElsewhere, org_update_team-SameElsewhere, org_delete_team-SameElsewhere,
}
use django_boilerplate.Tenants.Divisions.Elsewhere.{
  create_division-SameElsewhere, org_update_division-SameElsewhere,
  org_delete_division-SameElsewhere,
}
use django_boilerplate.Tenants.Members.Elsewhere.{
  add_member-SameElsewhere, remove_member-SameElsewhere,
}
use django_boilerplate.Tenants.Requests.{
  OrgAction, team_post, team_put, team_delete, division_post, division_put, division_delete,
  member_post, member_delete, act, Caller, org_request,
}
use django_boilerplate.Tenants.Valid.{IsValid}
use django_boilerplate.Tenants.Isolated.{SameElsewhere}

module _ (db : Database) (v : IsValid db) (org id : String) where
  act-SameElsewhere : (a : OrgAction) → SameElsewhere org db (act org a id db).1
  unfolding act
  act-SameElsewhere (team_post a) =
      create_team-SameElsewhere org db (record a { org = org }) id refl
  act-SameElsewhere (team_put t c) = org_update_team-SameElsewhere org db v t c
  act-SameElsewhere (team_delete t) = org_delete_team-SameElsewhere org db v t
  act-SameElsewhere (division_post a) =
      create_division-SameElsewhere org db (record a { org = org }) id refl
  act-SameElsewhere (division_put partial d c) =
      org_update_division-SameElsewhere org db v partial d c
  act-SameElsewhere (division_delete d) = org_delete_division-SameElsewhere org db v d
  act-SameElsewhere (member_post a) =
      add_member-SameElsewhere org db (record a { org = org }) id refl
  act-SameElsewhere (member_delete user) = remove_member-SameElsewhere org db user

  -- A platform administrator, or the administrator of the organisation.
  abbrev pub MayAct : Caller → Type 0
  MayAct caller =
      (caller.is_authenticated ≡ true)
      × ((has_role "platform_admin" caller.claims ≡ true)
          ⊎ ((o : String) × IsAdminOf caller.is_authenticated caller.claims (some org) o))

  -- A request to the teams, the divisions or the members under an organisation's URL comes to valid
  -- tables. It changes nothing, or its caller is authenticated and is a platform administrator or the
  -- administrator of that organisation, and the divisions, teams and memberships of all other
  -- organisations stay as they are.
  pub tenant_isolation :
      (caller : Caller) (a : OrgAction)
      → ((org_request caller org a id db).1 ≡ db)
        ⊎ (MayAct caller × SameElsewhere org db (org_request caller org a id db).1)
  unfolding org_request
  tenant_isolation caller a =
      if-cases (λ (r : Reply × Database). (r.1 ≡ db) ⊎ (MayAct caller × SameElsewhere org db r.1))
        (is_org_admin_for_org caller.is_authenticated caller.claims (some org)) _ _
        (λ allowed.
          let (user, role) =
            (org_admin_iff caller.is_authenticated caller.claims (some org)).0 allowed in
          inr ((user, role), act-SameElsewhere a))
        (λ denied. inl refl)
