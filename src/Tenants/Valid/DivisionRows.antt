-- ===== src/Tenants/Valid/DivisionRows.antt =====
-- Rows of divisions are written and deleted under the invariant.
use django_boilerplate.Prelude.{
  ◌≡◌, refl, String, true, false, not, ◌&&◌, Option, none, some, List, [], ◌∷◌, ◌++◌, arith, ◌==◌,
  eq_iff, any, rows,
}
use django_boilerplate.Rows.{
  has_id, owner-append, owner-rows, owner-change, IsUnique-change, IsUnique-rows, IsUnique-append,
  any_removed, All-rows, All-weaken,
}
use django_boilerplate.Tenants.{
  Division, Team, Membership, Database, division_owner, team_owner, same_key, change_division,
}
use django_boilerplate.Tenants.Valid.{IsOf, IsValid, IsOf-weaken, IsOf-kept}
use django_boilerplate.Tenants.Divisions.{delete_division, in_division, goes_with}

-- A team of a division that goes is a team of no membership that stays.
stays-any :
    (k : String) (j : String) (ts : List Team)
    → any (λ t. in_division k t && same_key (some j) (some t.id)) ts ≡ false
    → any (λ t. t.id == j && not (not (in_division k t))) ts ≡ false
stays-any k j [] h = refl
stays-any k j (t ∷ ts) h = ground (arith, stays-any k j ts, eq_iff j t.id, eq_iff t.id j)

module _ (db : Database) (v : IsValid db) where
  pub add_division-IsValid :
      (d : Division)
      → has_id (λ (x : Division). x.id) (λ x. x.org_id) d.id db.divisions ≡ false
      → IsValid (record db { divisions = db.divisions ++ d ∷ [] })
  add_division-IsValid d fresh =
      let keeps : (k : Option String) (org : String)
          → IsOf (λ j. division_owner j db.divisions) k org
          → IsOf (λ j. division_owner j (db.divisions ++ d ∷ [])) k org =
        λ k org.
          IsOf-weaken (λ j. division_owner j db.divisions)
            (λ j. division_owner j (db.divisions ++ d ∷ [])) k org
            (λ j. owner-append (λ x. x.id) (λ x. x.org_id) j org db.divisions (d ∷ [])) in
      record {
        divisions_unique =
            IsUnique-append (λ x. x.id) (λ x. x.org_id) d db.divisions fresh v.divisions_unique;
        teams_unique = v.teams_unique;
        memberships_unique = v.memberships_unique;
        teams_within = All-weaken _ _ db.teams (λ t. keeps t.division_id t.org_id) v.teams_within;
        members_divisions =
            All-weaken _ _ db.memberships (λ m. keeps m.division_id m.org_id) v.members_divisions;
        members_teams = v.members_teams;
      }

  pub set_division-IsValid :
      (k : String) (f : Division → Division)
      → ((x : Division) → (f x).id ≡ x.id)
      → ((x : Division) → (f x).org_id ≡ x.org_id)
      → IsValid (record db { divisions = change_division k f db.divisions })
  set_division-IsValid k f named same =
      let keeps : (j : Option String) (org : String)
          → IsOf (λ i. division_owner i db.divisions) j org
          → IsOf (λ i. division_owner i (change_division k f db.divisions)) j org =
        λ j org.
          IsOf-weaken (λ i. division_owner i db.divisions)
            (λ i. division_owner i (change_division k f db.divisions)) j org
            (λ i h.
              rw (owner-change (λ x. x.id) (λ x. x.org_id) k f i db.divisions named same) h) in
      record {
        divisions_unique =
            IsUnique-change (λ x. x.id) (λ x. x.org_id) k f db.divisions named v.divisions_unique;
        teams_unique = v.teams_unique;
        memberships_unique = v.memberships_unique;
        teams_within = All-weaken _ _ db.teams (λ t. keeps t.division_id t.org_id) v.teams_within;
        members_divisions =
            All-weaken _ _ db.memberships (λ m. keeps m.division_id m.org_id) v.members_divisions;
        members_teams = v.members_teams;
      }

  stays_with :
      (k : String) (m : Membership)
      → not (goes_with k db.teams m) ≡ true
      → IsOf (λ j. team_owner j db.teams) m.team_id m.org_id
      → IsOf (λ j. team_owner j (rows (λ t. not (in_division k t)) db.teams)) m.team_id m.org_id
  stays_with k m kept = stays m.team_id (ground (arith, kept))
    where
      stays :
          (j : Option String)
          → any (λ t. in_division k t && same_key j (some t.id)) db.teams ≡ false
          → IsOf (λ i. team_owner i db.teams) j m.org_id
          → IsOf (λ i. team_owner i (rows (λ t. not (in_division k t)) db.teams)) j m.org_id
      stays none gone h = tt
      stays (some j) gone h =
          rw
            (owner-rows (λ x. x.id) (λ x. x.org_id) j (λ t. not (in_division k t)) db.teams
              (stays-any k j db.teams gone))
            h

  pub delete_division-IsValid : (k : String) → IsValid (delete_division k db)
  unfolding delete_division
  delete_division-IsValid k =
      let keeps : (j : Option String) (org : String)
          → not (same_key j (some k)) ≡ true
          → IsOf (λ i. division_owner i db.divisions) j org
          → IsOf (λ i. division_owner i (rows (λ d. not (d.id == k)) db.divisions)) j org =
        λ j org kept.
          IsOf-kept (λ i. division_owner i db.divisions)
            (λ i. division_owner i (rows (λ d. not (d.id == k)) db.divisions)) j org k kept
            (λ i other.
              owner-rows (λ x. x.id) (λ x. x.org_id) i _ db.divisions
                (any_removed (λ x. x.id) (λ x. x.org_id) i k db.divisions other)) in
      record {
        divisions_unique =
            IsUnique-rows (λ x. x.id) (λ x. x.org_id) _ db.divisions v.divisions_unique;
        teams_unique = IsUnique-rows (λ x. x.id) (λ x. x.org_id) _ db.teams v.teams_unique;
        memberships_unique =
            IsUnique-rows (λ x. x.id) (λ x. x.org_id) _ db.memberships v.memberships_unique;
        teams_within =
            All-rows _ _ _ db.teams (λ t kept. keeps t.division_id t.org_id kept) v.teams_within;
        members_divisions =
            All-rows _ _ _ db.memberships
              (λ m kept. keeps m.division_id m.org_id (ground (arith, kept))) v.members_divisions;
        members_teams =
            All-rows _ _ _ db.memberships (λ m kept. stays_with k m kept) v.members_teams;
      }
