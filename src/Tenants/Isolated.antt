-- ===== src/Tenants/Isolated.antt =====
-- A request under an organisation's URL touches no row of another organisation.
pub mod Granted
use django_boilerplate.Prelude.{
  ◌≡◌, ◌⊎◌, inl, inr, refl, sym, ◌∙◌, String, Bool, true, false, not, ◌&&◌, ◌||◌, Bool-cases,
  Option, none, some, List, [], ◌∷◌, ◌++◌, ◌==◌, eq_iff, arith, any, first, rows, All, if-cases,
}
use django_boilerplate.Rows.{
  foreign, IsOwned, foreign-append, foreign-rows, foreign-change, first-IsOwned, first-passes,
  owner-IsOwned, owner-any, All-weaken,
}
use django_boilerplate.Tenants.{
  Division, Team, Membership, Database, Reply, division_owner, team_owner, same_key, change_team,
  change_division,
}
use django_boilerplate.Tenants.Teams.{delete_team}
use django_boilerplate.Tenants.Divisions.{delete_division, in_division, goes_with}
use django_boilerplate.Tenants.Valid.{IsOf, IsValid}

-- The rows of all organisations but one.
pub record SameElsewhere (org : String) (db after : Database) : Type 0 where
  pub users : after.users ≡ db.users
  pub orgs : after.orgs ≡ db.orgs
  pub divisions :
      foreign (λ (d : Division). d.id) (λ d. d.org_id) org after.divisions
      ≡ foreign (λ d. d.id) (λ d. d.org_id) org db.divisions
  pub teams :
      foreign (λ (t : Team). t.id) (λ t. t.org_id) org after.teams
      ≡ foreign (λ t. t.id) (λ t. t.org_id) org db.teams
  pub memberships :
      foreign (λ (m : Membership). m.id) (λ m. m.org_id) org after.memberships
      ≡ foreign (λ m. m.id) (λ m. m.org_id) org db.memberships

pub SameElsewhere-refl : (org : String) (db : Database) → SameElsewhere org db db
SameElsewhere-refl org db = record {
  users = refl;
  orgs = refl;
  divisions = refl;
  teams = refl;
  memberships = refl;
}

-- A reference to a row of the organisation is one of a row of the organisation.
IsOf-org :
    (f : String → Option String) (k : String) (org : String) (r : Option String) (o : String)
    → ((p : String) → f k ≡ some p → p ≡ org)
    → IsOf f r o
    → same_key r (some k) ≡ true
    → o ≡ org
IsOf-org f k org none o own h e = ground arith
IsOf-org f k org (some j) o own h e = own o (rw (← (eq_iff j k).0 e) h)

module _ (org : String) (db : Database) (v : IsValid db) where
  pub delete_team-SameElsewhere :
      (k : String)
      → IsOwned (λ t. t.id) (λ t. t.org_id) k org db.teams
      → SameElsewhere org db (delete_team k db)
  unfolding delete_team
  delete_team-SameElsewhere k own = record {
    users = refl;
    orgs = refl;
    divisions = refl;
    teams =
        foreign-rows (λ t. t.id) (λ t. t.org_id) org _ db.teams
          (All-weaken _ _ db.teams (λ t h gone. h (ground (arith, gone))) own);
    memberships =
        foreign-rows (λ m. m.id) (λ m. m.org_id) org _ db.memberships
          (All-weaken _ _ db.memberships
            (λ m h gone.
              IsOf-org (λ j. team_owner j db.teams) k org m.team_id m.org_id
                (λ p. owner-IsOwned (λ t. t.id) (λ t. t.org_id) k org p db.teams own) h
                (ground (arith, gone)))
            v.members_teams);
  }

  module _ (k : String) (own : IsOwned (λ d. d.id) (λ d. d.org_id) k org db.divisions) where
    owned_division : (p : String) → division_owner k db.divisions ≡ some p → p ≡ org
    owned_division p = owner-IsOwned (λ d. d.id) (λ d. d.org_id) k org p db.divisions own

    teams_owned : All (λ t. in_division k t ≡ true → t.org_id ≡ org) db.teams
    teams_owned =
        All-weaken _ _ db.teams
          (λ t.
            IsOf-org (λ j. division_owner j db.divisions) k org t.division_id t.org_id
              owned_division)
          v.teams_within

    through_team :
        (r : Option String) (o : String)
        → IsOf (λ j. team_owner j db.teams) r o
        → any (λ t. in_division k t && same_key r (some t.id)) db.teams ≡ true
        → o ≡ org
    through_team none o h e = absurd (no_team db.teams e)
      where
        no_team : (ts : List Team) → any (λ t. in_division k t && false) ts ≡ true → ⊥
        no_team [] e = cc
        no_team (t ∷ ts) e = no_team ts (ground (arith, e))
    through_team (some j) o h e = ground (
      arith,
      h,
      owner-any (λ t. t.id) (λ t. t.org_id) j org (in_division k) db.teams v.teams_unique
          teams_owned e,
    )

    pub delete_division-SameElsewhere : SameElsewhere org db (delete_division k db)
    unfolding delete_division
    delete_division-SameElsewhere = record {
      users = refl;
      orgs = refl;
      divisions =
          foreign-rows (λ d. d.id) (λ d. d.org_id) org _ db.divisions
            (All-weaken _ _ db.divisions (λ d h gone. h (ground (arith, gone))) own);
      teams =
          foreign-rows (λ t. t.id) (λ t. t.org_id) org _ db.teams
            (All-weaken _ _ db.teams (λ t h gone. h (ground (arith, gone))) teams_owned);
      memberships =
          foreign-rows (λ m. m.id) (λ m. m.org_id) org _ db.memberships
            (gone_members db.memberships v.members_divisions v.members_teams);
    }
      where
        gone_members :
            (ms : List Membership)
            → All (λ m. IsOf (λ j. division_owner j db.divisions) m.division_id m.org_id) ms
            → All (λ m. IsOf (λ j. team_owner j db.teams) m.team_id m.org_id) ms
            → All (λ m. not (goes_with k db.teams m) ≡ false → m.org_id ≡ org) ms
        gone_members [] hs ts = tt
        gone_members (m ∷ ms) (h, hs) (t, ts) = (
          λ gone. elim (Bool-cases (same_key m.division_id (some k))) [
            | inl direct ↦
                IsOf-org (λ j. division_owner j db.divisions) k org m.division_id m.org_id
                  owned_division h direct
            | inr other ↦ through_team m.team_id m.org_id t (ground (arith, gone, other))
          ],
          gone_members ms hs ts,
        )
