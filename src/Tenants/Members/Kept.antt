-- ===== src/Tenants/Members/Kept.antt =====
-- The requests on memberships keep the tables valid.
use django_boilerplate.Prelude.{
  contains, ◌≡◌, refl, String, false, not, Option, none, some, List, [], ◌∷◌, first, rows, if-cases,
  any, ◌==◌,
}
use django_boilerplate.Rows.{has_id, IsOwned, first-IsOwned}
use django_boilerplate.Tenants.{
  refuse_if, has_org, unknown_user, unknown_org, already_exists, Invalid, Division, Team,
  Membership, Database, Reply, division_owner, team_owner, given_or,
}
use django_boilerplate.Tenants.Members.{
  MembershipAttrs, MembershipChanges, create_error, add_member, unless_invalid, new_membership,
  is_existing, is_member, remove_found, remove_member, given_division_error, given_team_error,
  update_error, with_changes, clashes, save_membership, save_valid, update_found, update_membership,
  delete_found, delete_membership,
}
use django_boilerplate.Tenants.Valid.{
  IsOf, IsValid, orelse-none, division_error-IsOf, team_error-IsOf,
}
use django_boilerplate.Tenants.Valid.MemberRows.{
  add_member-IsValid, set_member-IsValid, remove-IsValid,
}

given_division-IsOf :
    (ds : List Division) (org : String) (old : Option String) (d : Option (Option String))
    → given_division_error ds org d ≡ none
    → IsOf (λ j. division_owner j ds) old org
    → IsOf (λ j. division_owner j ds) (given_or d old) org
given_division-IsOf ds org old none h kept = kept
given_division-IsOf ds org old (some d) h kept = division_error-IsOf ds org d h

given_team-IsOf :
    (ts : List Team) (org : String) (old : Option String) (t : Option (Option String))
    → given_team_error ts org t ≡ none
    → IsOf (λ j. team_owner j ts) old org
    → IsOf (λ j. team_owner j ts) (given_or t old) org
given_team-IsOf ts org old none h kept = kept
given_team-IsOf ts org old (some t) h kept = team_error-IsOf ts org t h

module _ (db : Database) (v : IsValid db) where
  created-IsValid :
      (e : Option Invalid) (a : MembershipAttrs) (id : String)
      → (e ≡ none
          → IsOf (λ k. division_owner k db.divisions) a.division a.org
            × IsOf (λ k. team_owner k db.teams) a.team a.org)
      → has_id (λ (m : Membership). m.id) (λ m. m.org_id) id db.memberships ≡ false
      → IsValid (unless_invalid e a id db).1
  unfolding unless_invalid
  created-IsValid none a id within fresh =
      add_member-IsValid db v (new_membership a id) fresh (within refl).0 (within refl).1
  created-IsValid (some e) a id within fresh = v

  pub post-IsValid :
      (a : MembershipAttrs) (id : String)
      → has_id (λ (m : Membership). m.id) (λ m. m.org_id) id db.memberships ≡ false
      → IsValid (add_member a id db).1
  unfolding add_member create_error
  post-IsValid a id = created-IsValid (create_error db a) a id (λ h.
      let known = (orelse-none (refuse_if (not (contains db.users a.user)) unknown_user) _ h).1 in
      let placed = (orelse-none (refuse_if (not (has_org db a.org)) unknown_org) _ known).1 in
      let rest =
        (orelse-none (refuse_if (any (is_existing a) db.memberships) already_exists) _ placed).1 in
      (
        division_error-IsOf db.divisions a.org a.division (orelse-none _ _ rest).0,
        team_error-IsOf db.teams a.org a.team (orelse-none _ _ rest).1,
      ))

  removed-IsValid :
      (ms : List Membership) (org user : String) → IsValid (remove_found ms org user db).1
  unfolding remove_found
  removed-IsValid [] org user = v
  removed-IsValid (m ∷ ms) org user = remove-IsValid db v (λ x. not (is_member org user x))

  pub remove_member-IsValid : (org user : String) → IsValid (remove_member org user db).1
  unfolding remove_member
  remove_member-IsValid org user =
      removed-IsValid (rows (is_member org user) db.memberships) org user

  saved-IsValid :
      (e : Option Invalid) (m : Membership) (c : MembershipChanges)
      → (e ≡ none
          → (given_division_error db.divisions m.org_id c.division ≡ none)
            × (given_team_error db.teams m.org_id c.team ≡ none))
      → IsOwned (λ x. x.id) (λ x. x.org_id) m.id m.org_id db.memberships
      → IsValid (save_valid e m c db).1
  unfolding save_valid save_membership
  saved-IsValid none m c checked own =
      if-cases (λ (r : Reply × Database). IsValid r.1)
        (any (clashes (with_changes c m)) db.memberships) _ _ (λ clash. v)
        (λ free.
          set_member-IsValid db v m.id m.org_id (with_changes c) (λ x. refl)
            (λ x same.
              given_division-IsOf db.divisions x.org_id x.division_id c.division
                (rw same (checked refl).0))
            (λ x same.
              given_team-IsOf db.teams x.org_id x.team_id c.team (rw same (checked refl).1))
            own)
  saved-IsValid (some e) m c checked own = v

  found-IsValid :
      (o : Option Membership) (c : MembershipChanges)
      → ((m : Membership)
          → o ≡ some m
          → IsOwned (λ x. x.id) (λ x. x.org_id) m.id m.org_id db.memberships)
      → IsValid (update_found o c db).1
  unfolding update_found update_error
  found-IsValid none c own = v
  found-IsValid (some m) c own =
      saved-IsValid (update_error db m c) m c (λ h. orelse-none _ _ h) (own m refl)

  pub update_membership-IsValid :
      (id : String) (c : MembershipChanges) → IsValid (update_membership id c db).1
  unfolding update_membership
  update_membership-IsValid id c =
      found-IsValid (first (λ m. m.id == id) db.memberships) c
        (λ m. first-IsOwned (λ x. x.id) (λ x. x.org_id) _ db.memberships m v.memberships_unique)

  deleted-IsValid : (o : Option Membership) → IsValid (delete_found o db).1
  unfolding delete_found
  deleted-IsValid none = v
  deleted-IsValid (some m) = remove-IsValid db v (λ x. not (x.id == m.id))

  pub delete_membership-IsValid : (id : String) → IsValid (delete_membership id db).1
  unfolding delete_membership
  delete_membership-IsValid id = deleted-IsValid (first (λ m. m.id == id) db.memberships)
