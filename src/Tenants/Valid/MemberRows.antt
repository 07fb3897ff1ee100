-- ===== src/Tenants/Valid/MemberRows.antt =====
-- Rows of memberships are written and deleted under the invariant.
use django_boilerplate.Prelude.{◌≡◌, String, Bool, false, [], ◌∷◌, ◌++◌, rows, All-append}
use django_boilerplate.Rows.{
  IsOwned, has_id, IsUnique-change, IsUnique-rows, IsUnique-append, All-change, All-rows,
}
use django_boilerplate.Tenants.{Membership, Database, division_owner, team_owner, change_membership}
use django_boilerplate.Tenants.Valid.{IsOf, IsValid}

module _ (db : Database) (v : IsValid db) where
  pub add_member-IsValid :
      (m : Membership)
      → has_id (λ (x : Membership). x.id) (λ x. x.org_id) m.id db.memberships ≡ false
      → IsOf (λ k. division_owner k db.divisions) m.division_id m.org_id
      → IsOf (λ k. team_owner k db.teams) m.team_id m.org_id
      → IsValid (record db { memberships = db.memberships ++ m ∷ [] })
  add_member-IsValid m fresh in_division in_team = record {
    divisions_unique = v.divisions_unique;
    teams_unique = v.teams_unique;
    memberships_unique =
        IsUnique-append (λ x. x.id) (λ x. x.org_id) m db.memberships fresh v.memberships_unique;
    teams_within = v.teams_within;
    members_divisions = All-append _ db.memberships (m ∷ []) v.members_divisions (in_division, tt);
    members_teams = All-append _ db.memberships (m ∷ []) v.members_teams (in_team, tt);
  }

  pub set_member-IsValid :
      (k org : String) (f : Membership → Membership)
      → ((x : Membership) → (f x).id ≡ x.id)
      → ((x : Membership)
          → x.org_id ≡ org
          → IsOf (λ j. division_owner j db.divisions) x.division_id x.org_id
          → IsOf (λ j. division_owner j db.divisions) (f x).division_id (f x).org_id)
      → ((x : Membership)
          → x.org_id ≡ org
          → IsOf (λ j. team_owner j db.teams) x.team_id x.org_id
          → IsOf (λ j. team_owner j db.teams) (f x).team_id (f x).org_id)
      → IsOwned (λ x. x.id) (λ x. x.org_id) k org db.memberships
      → IsValid (record db { memberships = change_membership k f db.memberships })
  set_member-IsValid k org f named divisions_kept teams_kept own = record {
    divisions_unique = v.divisions_unique;
    teams_unique = v.teams_unique;
    memberships_unique =
        IsUnique-change (λ x. x.id) (λ x. x.org_id) k f db.memberships named v.memberships_unique;
    teams_within = v.teams_within;
    members_divisions =
        All-change (λ x. x.id) (λ x. x.org_id) _ k org f db.memberships divisions_kept own
          v.members_divisions;
    members_teams =
        All-change (λ x. x.id) (λ x. x.org_id) _ k org f db.memberships teams_kept own
          v.members_teams;
  }

  pub remove-IsValid :
      (p : Membership → Bool) → IsValid (record db { memberships = rows p db.memberships })
  remove-IsValid p = record {
    divisions_unique = v.divisions_unique;
    teams_unique = v.teams_unique;
    memberships_unique =
        IsUnique-rows (λ x. x.id) (λ x. x.org_id) _ db.memberships v.memberships_unique;
    teams_within = v.teams_within;
    members_divisions = All-rows _ _ _ db.memberships (λ x kept h. h) v.members_divisions;
    members_teams = All-rows _ _ _ db.memberships (λ x kept h. h) v.members_teams;
  }
