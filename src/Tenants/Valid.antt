-- ===== src/Tenants/Valid.antt =====
-- What holds of the tables of organisations between requests, and how rows are written under it.
pub mod DivisionRows
pub mod MemberRows
pub mod Kept
use django_boilerplate.Prelude.{
  ◌≡◌, refl, String, Bool, true, false, not, ◌&&◌, ◌||◌, Option, none, some, List, [], ◌∷◌, ◌++◌,
  arith, ◌==◌, eq_iff, any, rows, All, All-append,
}
use django_boilerplate.Rows.{
  IsUnique, IsOwned, has_id, owner-append, owner-rows, owner-change, IsUnique-change, IsUnique-rows,
  IsUnique-append, any_removed, All-change, All-rows, All-weaken,
}
use django_boilerplate.Tenants.{
  ◌orelse◌, team_error, Invalid, division_error, same_or, Division, Team, Membership, Database,
  division_owner, team_owner, same_key, change_division, change_team, change_membership,
}
use django_boilerplate.Tenants.Teams.{delete_team}
use django_boilerplate.Tenants.Divisions.{delete_division, in_division, goes_with}

-- A row that is referred to, if one is, belongs to the organisation.
abbrev pub IsOf : (String → Option String) → Option String → String → Type 0
IsOf owner_of none org = Unit
IsOf owner_of (some k) org = owner_of k ≡ some org

-- Keys are unique; the division of a team, and the division and the team of a membership, exist and
-- belong to its organisation.
pub record IsValid (db : Database) : Type 0 where
  pub divisions_unique : IsUnique (λ d. d.id) (λ d. d.org_id) db.divisions
  pub teams_unique : IsUnique (λ t. t.id) (λ t. t.org_id) db.teams
  pub memberships_unique : IsUnique (λ m. m.id) (λ m. m.org_id) db.memberships
  pub teams_within :
      All (λ t. IsOf (λ k. division_owner k db.divisions) t.division_id t.org_id) db.teams
  pub members_divisions :
      All (λ m. IsOf (λ k. division_owner k db.divisions) m.division_id m.org_id) db.memberships
  pub members_teams : All (λ m. IsOf (λ k. team_owner k db.teams) m.team_id m.org_id) db.memberships

-- An identifier that no table has.
abbrev pub IsFresh : String → Database → Type 0
IsFresh id db =
    (has_id (λ (d : Division). d.id) (λ d. d.org_id) id db.divisions ≡ false)
    × (has_id (λ (t : Team). t.id) (λ t. t.org_id) id db.teams ≡ false)
    × (has_id (λ (m : Membership). m.id) (λ m. m.org_id) id db.memberships ≡ false)

pub IsOf-weaken :
    (f g : String → Option String) (k : Option String) (org : String)
    → ((j : String) → f j ≡ some org → g j ≡ some org)
    → IsOf f k org
    → IsOf g k org
IsOf-weaken f g none org step h = tt
IsOf-weaken f g (some j) org step h = step j h

-- A reference that is kept still finds its row, where no other key lost its organisation.
pub IsOf-kept :
    (f g : String → Option String) (k : Option String) (org removed : String)
    → not (same_key k (some removed)) ≡ true
    → ((j : String) → (j == removed) ≡ false → g j ≡ f j)
    → IsOf f k org
    → IsOf g k org
IsOf-kept f g none org removed kept step h = tt
IsOf-kept f g (some j) org removed kept step h = rw (step j (ground arith)) h

module _ (db : Database) (v : IsValid db) where
  pub add_team-IsValid :
      (t : Team)
      → has_id (λ (x : Team). x.id) (λ x. x.org_id) t.id db.teams ≡ false
      → IsOf (λ k. division_owner k db.divisions) t.division_id t.org_id
      → IsValid (record db { teams = db.teams ++ t ∷ [] })
  add_team-IsValid t fresh within = record {
    divisions_unique = v.divisions_unique;
    teams_unique = IsUnique-append (λ x. x.id) (λ x. x.org_id) t db.teams fresh v.teams_unique;
    memberships_unique = v.memberships_unique;
    teams_within = All-append _ db.teams (t ∷ []) v.teams_within (within, tt);
    members_divisions = v.members_divisions;
    members_teams =
        All-weaken _ _ db.memberships
          (λ m.
            IsOf-weaken (λ k. team_owner k db.teams) (λ k. team_owner k (db.teams ++ t ∷ []))
              m.team_id m.org_id
              (λ j. owner-append (λ x. x.id) (λ x. x.org_id) j m.org_id db.teams (t ∷ [])))
          v.members_teams;
  }

  pub set_team-IsValid :
      (k org : String) (f : Team → Team)
      → ((x : Team) → (f x).id ≡ x.id)
      → ((x : Team) → (f x).org_id ≡ x.org_id)
      → ((x : Team)
          → x.org_id ≡ org
          → IsOf (λ j. division_owner j db.divisions) x.division_id x.org_id
          → IsOf (λ j. division_owner j db.divisions) (f x).division_id (f x).org_id)
      → IsOwned (λ x. x.id) (λ x. x.org_id) k org db.teams
      → IsValid (record db { teams = change_team k f db.teams })
  set_team-IsValid k org f named same step own = record {
    divisions_unique = v.divisions_unique;
    teams_unique = IsUnique-change (λ x. x.id) (λ x. x.org_id) k f db.teams named v.teams_unique;
    memberships_unique = v.memberships_unique;
    teams_within =
        All-change (λ x. x.id) (λ x. x.org_id) _ k org f db.teams step own v.teams_within;
    members_divisions = v.members_divisions;
    members_teams =
        All-weaken _ _ db.memberships
          (λ m.
            IsOf-weaken (λ j. team_owner j db.teams) (λ j. team_owner j (change_team k f db.teams))
              m.team_id m.org_id
              (λ j h. rw (owner-change (λ x. x.id) (λ x. x.org_id) k f j db.teams named same) h))
          v.members_teams;
  }

  pub delete_team-IsValid : (k : String) → IsValid (delete_team k db)
  unfolding delete_team
  delete_team-IsValid k = record {
    divisions_unique = v.divisions_unique;
    teams_unique = IsUnique-rows (λ x. x.id) (λ x. x.org_id) _ db.teams v.teams_unique;
    memberships_unique =
        IsUnique-rows (λ x. x.id) (λ x. x.org_id) _ db.memberships v.memberships_unique;
    teams_within = All-rows _ _ _ db.teams (λ x kept h. h) v.teams_within;
    members_divisions = All-rows _ _ _ db.memberships (λ x kept h. h) v.members_divisions;
    members_teams =
        All-rows _ _ _ db.memberships
          (λ m kept.
            IsOf-kept (λ j. team_owner j db.teams)
              (λ j. team_owner j (rows (λ t. not (t.id == k)) db.teams)) m.team_id m.org_id k kept
              (λ j other.
                owner-rows (λ x. x.id) (λ x. x.org_id) j _ db.teams
                  (any_removed (λ x. x.id) (λ x. x.org_id) j k db.teams other)))
          v.members_teams;
  }

pub orelse-none : (e f : Option Invalid) → (e orelse f) ≡ none → (e ≡ none) × (f ≡ none)
orelse-none none f h = (refl, h)
orelse-none (some i) f h = ground arith

same_or-owned : (org : String) (o : Option String) → same_or org o ≡ none → o ≡ some org
same_or-owned org none h = ground arith
same_or-owned org (some o) h = ground (arith, eq_iff o org)

-- What the serializers check of a division and of a team.
pub division_error-IsOf :
    (ds : List Division) (org : String) (d : Option String)
    → division_error ds org d ≡ none
    → IsOf (λ k. division_owner k ds) d org
unfolding division_error
division_error-IsOf ds org none h = tt
division_error-IsOf ds org (some d) h = same_or-owned org (division_owner d ds) h

pub team_error-IsOf :
    (ts : List Team) (org : String) (t : Option String)
    → team_error ts org t ≡ none
    → IsOf (λ k. team_owner k ts) t org
unfolding team_error
team_error-IsOf ts org none h = tt
team_error-IsOf ts org (some t) h = same_or-owned org (team_owner t ts) h
