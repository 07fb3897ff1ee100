-- ===== src/Tenants/Orgs.antt =====
-- api/views_admin_orgs.py and the serializers of api/serializers_admin_orgs.py.
pub mod Kept
use django_boilerplate.Prelude.{
  String, Bool, true, false, not, ◌&&◌, ◌||◌, Option, none, some, List, [], ◌∷◌, ◌++◌, ◌==◌, any,
  first, rows, contains, strip, if◌then◌else◌,
}
use django_boilerplate.Tenants.{
  Status, active, inactive, BillingMode, inherit, independent, Org, Division, Team, Membership,
  Database, Invalid, required, empty_name, name_taken, already_exists, unknown_user, unknown_org,
  Reply, created, updated, deleted, removed, not_found, invalid, integrity_error, type_error,
  ◌orelse◌, refuse_if, name_error, division_error, team_error, has_org, same_null, same_key,
  given_or, change_division, change_team, change_membership, change_org,
}

pub record OrgAttrs : Type 0 where
  pub name : String
  pub status : Option Status
  pub license_tier : Option String
  pub feature_flags : Option String

pub record OrgChanges : Type 0 where
  pub name : Option String
  pub status : Option Status
  pub license_tier : Option String
  pub feature_flags : Option String

abbrev pub new_org : OrgAttrs → String → Org
new_org a id = record {
  id = id;
  name = strip a.name;
  status = given_or a.status active;
  license_tier = given_or a.license_tier "free";
  feature_flags = given_or a.feature_flags "{}";
}

unless_invalid : Option Invalid → OrgAttrs → String → Database → Reply × Database
unless_invalid (some e) a id db = (invalid e, db)
unless_invalid none a id db = (created id, record db { orgs = db.orgs ++ new_org a id ∷ [] })

-- `post` of `AdminOrgListCreateView`, under an identifier for the new organisation.
unfoldable pub create_org : OrgAttrs → String → Database → Reply × Database
unfolding unless_invalid
create_org a id db = unless_invalid (name_error a.name) a id db

abbrev pub changed_name_error : Option String → Option Invalid
changed_name_error none = none
changed_name_error (some name) = name_error name

abbrev pub stripped_or : Option String → String → String
stripped_or none old = old
stripped_or (some name) old = strip name

abbrev pub with_changes : OrgChanges → Org → Org
with_changes c o = record o {
  name = stripped_or c.name o.name;
  status = given_or c.status o.status;
  license_tier = given_or c.license_tier o.license_tier;
  feature_flags = given_or c.feature_flags o.feature_flags;
}

save_valid : Option Invalid → Org → OrgChanges → Database → Reply × Database
save_valid (some e) o c db = (invalid e, db)
save_valid none o c db = (updated, record db { orgs = change_org o.id (with_changes c) db.orgs })

update_found : Option Org → OrgChanges → Database → Reply × Database
update_found none c db = (not_found, db)
update_found (some o) c db = save_valid (changed_name_error c.name) o c db

-- `put` of `AdminOrgDetailView`
unfoldable pub update_org : String → OrgChanges → Database → Reply × Database
unfolding update_found save_valid
update_org id c db = update_found (first (λ o. o.id == id) db.orgs) c db

deactivate_found : Option Org → Database → Reply × Database
deactivate_found none db = (not_found, db)
deactivate_found (some o) db =
    (updated, record db { orgs = change_org o.id (λ x. record x { status = inactive }) db.orgs })

-- `delete` of `AdminOrgDetailView`: the organisation stays, inactive.
unfoldable pub deactivate_org : String → Database → Reply × Database
unfolding deactivate_found
deactivate_org id db = deactivate_found (first (λ o. o.id == id) db.orgs) db
