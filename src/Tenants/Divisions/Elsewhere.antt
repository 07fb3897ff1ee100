-- ===== src/Tenants/Divisions/Elsewhere.antt =====
-- The requests on divisions of an organisation touch no row of another.
use django_boilerplate.Prelude.{
  subst, ◌≡◌, refl, String, Bool, true, false, Option, none, some, eq_iff, arith, first,
}
use django_boilerplate.Rows.{IsOwned, foreign-append, foreign-change, first-IsOwned, first-passes}
use django_boilerplate.Tenants.{Invalid, Division, Database}
use django_boilerplate.Tenants.Valid.{IsValid}
use django_boilerplate.Tenants.Isolated.{SameElsewhere, SameElsewhere-refl}
use django_boilerplate.Tenants.Isolated.{delete_division-SameElsewhere}
use django_boilerplate.Tenants.Divisions.{
  DivisionAttrs, DivisionChanges, create_error, create_division, unless_invalid, new_division,
  with_changes, update_error, save_valid, update_found, is_org_division, org_update_division,
  delete_found, org_delete_division,
}

module _ (org : String) (db : Database) where
  created-SameElsewhere :
      (e : Option Invalid) (a : DivisionAttrs) (id : String)
      → a.org ≡ org
      → SameElsewhere org db (unless_invalid e a id db).1
  unfolding unless_invalid
  created-SameElsewhere none a id same = record {
    users = refl;
    orgs = refl;
    divisions =
        foreign-append (λ d. d.id) (λ d. d.org_id) org (new_division a id) db.divisions same;
    teams = refl;
    memberships = refl;
  }
  created-SameElsewhere (some e) a id same = SameElsewhere-refl org db

  pub create_division-SameElsewhere :
      (a : DivisionAttrs) (id : String)
      → a.org ≡ org
      → SameElsewhere org db (create_division a id db).1
  unfolding create_division
  create_division-SameElsewhere a id = created-SameElsewhere (create_error db a) a id

  saved-SameElsewhere :
      (e : Option Invalid) (d : Division) (c : DivisionChanges)
      → IsOwned (λ x. x.id) (λ x. x.org_id) d.id org db.divisions
      → SameElsewhere org db (save_valid e d c db).1
  unfolding save_valid
  saved-SameElsewhere none d c own = record {
    users = refl;
    orgs = refl;
    divisions =
        foreign-change (λ x. x.id) (λ x. x.org_id) d.id (with_changes c) org db.divisions
          (λ x. refl) own;
    teams = refl;
    memberships = refl;
  }
  saved-SameElsewhere (some e) d c own = SameElsewhere-refl org db

  found-SameElsewhere :
      (o : Option Division) (c : DivisionChanges)
      → ((d : Division) → o ≡ some d → IsOwned (λ x. x.id) (λ x. x.org_id) d.id org db.divisions)
      → SameElsewhere org db (update_found false o c db).1
  unfolding update_found
  found-SameElsewhere none c own = SameElsewhere-refl org db
  found-SameElsewhere (some d) c own =
      saved-SameElsewhere (update_error false db d c) d c (own d refl)

  module _ (v : IsValid db) where
    -- A division that is found below the organisation's URL has a key of the organisation.
    owned :
        (id : String) (d : Division)
        → first (is_org_division org id) db.divisions ≡ some d
        → IsOwned (λ x. x.id) (λ x. x.org_id) d.id org db.divisions
    owned id d e =
        let here : d.org_id ≡ org = (eq_iff d.org_id org).0 (
          ground (
            arith,
            first-passes (λ x. x.id) (λ x. x.org_id) (is_org_division org id) db.divisions d e,
          )) in
        subst (λ o. IsOwned (λ x. x.id) (λ x. x.org_id) d.id o db.divisions) here
          (first-IsOwned (λ x. x.id) (λ x. x.org_id) (is_org_division org id) db.divisions d
            v.divisions_unique e)

    pub org_update_division-SameElsewhere :
        (partial : Bool) (id : String) (c : DivisionChanges)
        → SameElsewhere org db (org_update_division partial org id c db).1
    unfolding org_update_division
    org_update_division-SameElsewhere true id c = SameElsewhere-refl org db
    org_update_division-SameElsewhere false id c =
        found-SameElsewhere (first (is_org_division org id) db.divisions) c (owned id)

    deleted-SameElsewhere :
        (o : Option Division)
        → ((d : Division) → o ≡ some d → IsOwned (λ x. x.id) (λ x. x.org_id) d.id org db.divisions)
        → SameElsewhere org db (delete_found o db).1
    unfolding delete_found
    deleted-SameElsewhere none own = SameElsewhere-refl org db
    deleted-SameElsewhere (some d) own = delete_division-SameElsewhere org db v d.id (own d refl)

    pub org_delete_division-SameElsewhere :
        (id : String) → SameElsewhere org db (org_delete_division org id db).1
    unfolding org_delete_division
    org_delete_division-SameElsewhere id =
        deleted-SameElsewhere (first (is_org_division org id) db.divisions) (owned id)
