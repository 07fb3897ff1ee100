-- ===== src/Tenants/Teams/Kept.antt =====
-- The requests on teams keep the tables valid.
use django_boilerplate.Prelude.{◌≡◌, refl, String, false, Option, none, some, first, if-cases, any}
use django_boilerplate.Rows.{has_id, IsOwned, first-IsOwned}
use django_boilerplate.Tenants.{Invalid, Team, Database, Reply, division_owner, given_or}
use django_boilerplate.Tenants.Teams.{
  TeamAttrs, TeamChanges, create_error, create_team, unless_invalid, changed_division_error,
  with_changes, clashes, update_error, save_team, save_valid, update_found, is_team, is_org_team,
  admin_update_team, org_update_team, delete_found, admin_delete_team, org_delete_team, new_team,
}
use django_boilerplate.Tenants.Valid.{
  IsOf, IsValid, add_team-IsValid, set_team-IsValid, delete_team-IsValid, orelse-none,
  division_error-IsOf,
}

changed-IsOf :
    (db : Database) (t x : Team) (c : TeamChanges)
    → changed_division_error db.divisions t.org_id c.division ≡ none
    → x.org_id ≡ t.org_id
    → IsOf (λ j. division_owner j db.divisions) x.division_id x.org_id
    → IsOf (λ j. division_owner j db.divisions) (given_or c.division x.division_id) x.org_id
changed-IsOf db t x c h same old = changed c.division h
  where
    changed :
        (d : Option (Option String))
        → changed_division_error db.divisions t.org_id d ≡ none
        → IsOf (λ j. division_owner j db.divisions) (given_or d x.division_id) x.org_id
    changed none h = old
    changed (some d) h = rw same (division_error-IsOf db.divisions t.org_id d h)

module _ (db : Database) (v : IsValid db) where
  created-IsValid :
      (e : Option Invalid) (a : TeamAttrs) (id : String)
      → (e ≡ none → IsOf (λ k. division_owner k db.divisions) a.division a.org)
      → has_id (λ (t : Team). t.id) (λ t. t.org_id) id db.teams ≡ false
      → IsValid (unless_invalid e a id db).1
  unfolding unless_invalid
  created-IsValid none a id within fresh = add_team-IsValid db v (new_team a id) fresh (within refl)
  created-IsValid (some e) a id within fresh = v

  pub create_team-IsValid :
      (a : TeamAttrs) (id : String)
      → has_id (λ (t : Team). t.id) (λ t. t.org_id) id db.teams ≡ false
      → IsValid (create_team a id db).1
  unfolding create_team create_error
  create_team-IsValid a id = created-IsValid (create_error db a) a id (λ h.
      division_error-IsOf db.divisions a.org a.division
        (orelse-none _ _ (orelse-none _ _ (orelse-none _ _ h).1).1).0)

  saved-IsValid :
      (e : Option Invalid) (t : Team) (c : TeamChanges)
      → (e ≡ none → changed_division_error db.divisions t.org_id c.division ≡ none)
      → IsOwned (λ x. x.id) (λ x. x.org_id) t.id t.org_id db.teams
      → IsValid (save_valid e t c db).1
  unfolding save_valid save_team
  saved-IsValid none t c within own =
      if-cases (λ (r : Reply × Database). IsValid r.1) (any (clashes (with_changes c t)) db.teams) _
        _ (λ clash. v)
        (λ free.
          set_team-IsValid db v t.id t.org_id (with_changes c) (λ x. refl) (λ x. refl)
            (λ x same old. changed-IsOf db t x c (within refl) same old) own)
  saved-IsValid (some e) t c within own = v

  found-IsValid :
      (o : Option Team) (c : TeamChanges)
      → ((t : Team) → o ≡ some t → IsOwned (λ x. x.id) (λ x. x.org_id) t.id t.org_id db.teams)
      → IsValid (update_found o c db).1
  unfolding update_found update_error
  found-IsValid none c own = v
  found-IsValid (some t) c own =
      saved-IsValid (update_error db t c) t c (λ h. (orelse-none _ _ (orelse-none _ _ h).1).0)
        (own t refl)

  pub admin_update_team-IsValid :
      (id : String) (c : TeamChanges) → IsValid (admin_update_team id c db).1
  unfolding admin_update_team
  admin_update_team-IsValid id c =
      found-IsValid (first (is_team id) db.teams) c
        (λ t. first-IsOwned (λ x. x.id) (λ x. x.org_id) (is_team id) db.teams t v.teams_unique)

  pub org_update_team-IsValid :
      (org id : String) (c : TeamChanges) → IsValid (org_update_team org id c db).1
  unfolding org_update_team
  org_update_team-IsValid org id c = found-IsValid (first (is_org_team org id) db.teams) c (λ t.
      first-IsOwned (λ x. x.id) (λ x. x.org_id) (is_org_team org id) db.teams t v.teams_unique)

  deleted-IsValid : (o : Option Team) → IsValid (delete_found o db).1
  unfolding delete_found
  deleted-IsValid none = v
  deleted-IsValid (some t) = delete_team-IsValid db v t.id

  pub admin_delete_team-IsValid : (id : String) → IsValid (admin_delete_team id db).1
  unfolding admin_delete_team
  admin_delete_team-IsValid id = deleted-IsValid (first (is_team id) db.teams)

  pub org_delete_team-IsValid : (org id : String) → IsValid (org_delete_team org id db).1
  unfolding org_delete_team
  org_delete_team-IsValid org id = deleted-IsValid (first (is_org_team org id) db.teams)
