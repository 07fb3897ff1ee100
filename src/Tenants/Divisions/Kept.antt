-- ===== src/Tenants/Divisions/Kept.antt =====
-- The requests on divisions keep the tables valid.
use django_boilerplate.Prelude.{◌≡◌, refl, String, Bool, true, false, Option, none, some, first}
use django_boilerplate.Rows.{has_id}
use django_boilerplate.Tenants.{Invalid, Division, Database}
use django_boilerplate.Tenants.Divisions.{
  DivisionAttrs, DivisionChanges, create_error, create_division, unless_invalid, new_division,
  with_changes, update_error, save_valid, update_found, is_division, is_org_division,
  admin_update_division, org_update_division, delete_found, admin_delete_division,
  org_delete_division,
}
use django_boilerplate.Tenants.Valid.{IsValid}
use django_boilerplate.Tenants.Valid.DivisionRows.{
  add_division-IsValid, set_division-IsValid, delete_division-IsValid,
}

module _ (db : Database) (v : IsValid db) where
  created-IsValid :
      (e : Option Invalid) (a : DivisionAttrs) (id : String)
      → has_id (λ (d : Division). d.id) (λ d. d.org_id) id db.divisions ≡ false
      → IsValid (unless_invalid e a id db).1
  unfolding unless_invalid
  created-IsValid none a id fresh = add_division-IsValid db v (new_division a id) fresh
  created-IsValid (some e) a id fresh = v

  pub create_division-IsValid :
      (a : DivisionAttrs) (id : String)
      → has_id (λ (d : Division). d.id) (λ d. d.org_id) id db.divisions ≡ false
      → IsValid (create_division a id db).1
  unfolding create_division
  create_division-IsValid a id = created-IsValid (create_error db a) a id

  saved-IsValid :
      (e : Option Invalid) (d : Division) (c : DivisionChanges) → IsValid (save_valid e d c db).1
  unfolding save_valid
  saved-IsValid none d c = set_division-IsValid db v d.id (with_changes c) (λ x. refl) (λ x. refl)
  saved-IsValid (some e) d c = v

  found-IsValid :
      (partial : Bool) (o : Option Division) (c : DivisionChanges)
      → IsValid (update_found partial o c db).1
  unfolding update_found
  found-IsValid partial none c = v
  found-IsValid partial (some d) c = saved-IsValid (update_error partial db d c) d c

  pub admin_update_division-IsValid :
      (partial : Bool) (id : String) (c : DivisionChanges)
      → IsValid (admin_update_division partial id c db).1
  unfolding admin_update_division
  admin_update_division-IsValid partial id c =
      found-IsValid partial (first (is_division id) db.divisions) c

  pub org_update_division-IsValid :
      (partial : Bool) (org id : String) (c : DivisionChanges)
      → IsValid (org_update_division partial org id c db).1
  unfolding org_update_division
  org_update_division-IsValid true org id c = v
  org_update_division-IsValid false org id c =
      found-IsValid false (first (is_org_division org id) db.divisions) c

  deleted-IsValid : (o : Option Division) → IsValid (delete_found o db).1
  unfolding delete_found
  deleted-IsValid none = v
  deleted-IsValid (some d) = delete_division-IsValid db v d.id

  pub admin_delete_division-IsValid : (id : String) → IsValid (admin_delete_division id db).1
  unfolding admin_delete_division
  admin_delete_division-IsValid id = deleted-IsValid (first (is_division id) db.divisions)

  pub org_delete_division-IsValid : (org id : String) → IsValid (org_delete_division org id db).1
  unfolding org_delete_division
  org_delete_division-IsValid org id = deleted-IsValid (first (is_org_division org id) db.divisions)
