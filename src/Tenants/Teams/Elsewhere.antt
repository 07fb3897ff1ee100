-- ===== src/Tenants/Teams/Elsewhere.antt =====
-- The requests on teams of an organisation touch no row of another.
use django_boilerplate.Prelude.{
  subst, ◌≡◌, refl, String, Option, none, some, eq_iff, arith, any, first, if-cases,
}
use django_boilerplate.Rows.{IsOwned, foreign-append, foreign-change, first-IsOwned, first-passes}
use django_boilerplate.Tenants.{Invalid, Team, Database, Reply}
use django_boilerplate.Tenants.Valid.{IsValid}
use django_boilerplate.Tenants.Isolated.{SameElsewhere, SameElsewhere-refl}
use django_boilerplate.Tenants.Isolated.{delete_team-SameElsewhere}
use django_boilerplate.Tenants.Teams.{
  TeamAttrs, TeamChanges, create_error, create_team, unless_invalid, new_team, with_changes,
  clashes, update_error, save_team, save_valid, update_found, is_org_team, org_update_team,
  delete_found, org_delete_team,
}

module _ (org : String) (db : Database) where
  created-SameElsewhere :
      (e : Option Invalid) (a : TeamAttrs) (id : String)
      → a.org ≡ org
      → SameElsewhere org db (unless_invalid e a id db).1
  unfolding unless_invalid
  created-SameElsewhere none a id same = record {
    users = refl;
    orgs = refl;
    divisions = refl;
    teams = foreign-append (λ t. t.id) (λ t. t.org_id) org (new_team a id) db.teams same;
    memberships = refl;
  }
  created-SameElsewhere (some e) a id same = SameElsewhere-refl org db

  pub create_team-SameElsewhere :
      (a : TeamAttrs) (id : String) → a.org ≡ org → SameElsewhere org db (create_team a id db).1
  unfolding create_team
  create_team-SameElsewhere a id = created-SameElsewhere (create_error db a) a id

  saved-SameElsewhere :
      (e : Option Invalid) (t : Team) (c : TeamChanges)
      → IsOwned (λ x. x.id) (λ x. x.org_id) t.id org db.teams
      → SameElsewhere org db (save_valid e t c db).1
  unfolding save_valid save_team
  saved-SameElsewhere none t c own =
      if-cases (λ (r : Reply × Database). SameElsewhere org db r.1)
        (any (clashes (with_changes c t)) db.teams) _ _ (λ clash. SameElsewhere-refl org db)
        (λ free. record {
          users = refl;
          orgs = refl;
          divisions = refl;
          teams =
              foreign-change (λ x. x.id) (λ x. x.org_id) t.id (with_changes c) org db.teams
                (λ x. refl) own;
          memberships = refl;
        })
  saved-SameElsewhere (some e) t c own = SameElsewhere-refl org db

  found-SameElsewhere :
      (o : Option Team) (c : TeamChanges)
      → ((t : Team) → o ≡ some t → IsOwned (λ x. x.id) (λ x. x.org_id) t.id org db.teams)
      → SameElsewhere org db (update_found o c db).1
  unfolding update_found
  found-SameElsewhere none c own = SameElsewhere-refl org db
  found-SameElsewhere (some t) c own = saved-SameElsewhere (update_error db t c) t c (own t refl)

  module _ (v : IsValid db) where
    -- A team that is found below the organisation's URL has a key of the organisation.
    owned :
        (id : String) (t : Team)
        → first (is_org_team org id) db.teams ≡ some t
        → IsOwned (λ x. x.id) (λ x. x.org_id) t.id org db.teams
    owned id t e =
        let here : t.org_id ≡ org = (eq_iff t.org_id org).0 (
          ground
            (arith, first-passes (λ x. x.id) (λ x. x.org_id) (is_org_team org id) db.teams t e)) in
        subst (λ o. IsOwned (λ x. x.id) (λ x. x.org_id) t.id o db.teams) here
          (first-IsOwned (λ x. x.id) (λ x. x.org_id) (is_org_team org id) db.teams t v.teams_unique
            e)

    pub org_update_team-SameElsewhere :
        (id : String) (c : TeamChanges) → SameElsewhere org db (org_update_team org id c db).1
    unfolding org_update_team
    org_update_team-SameElsewhere id c =
        found-SameElsewhere (first (is_org_team org id) db.teams) c (owned id)

    deleted-SameElsewhere :
        (o : Option Team)
        → ((t : Team) → o ≡ some t → IsOwned (λ x. x.id) (λ x. x.org_id) t.id org db.teams)
        → SameElsewhere org db (delete_found o db).1
    unfolding delete_found
    deleted-SameElsewhere none own = SameElsewhere-refl org db
    deleted-SameElsewhere (some t) own = delete_team-SameElsewhere org db v t.id (own t refl)

    pub org_delete_team-SameElsewhere :
        (id : String) → SameElsewhere org db (org_delete_team org id db).1
    unfolding org_delete_team
    org_delete_team-SameElsewhere id =
        deleted-SameElsewhere (first (is_org_team org id) db.teams) (owned id)
