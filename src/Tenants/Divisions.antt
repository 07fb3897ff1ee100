-- ===== src/Tenants/Divisions.antt =====
-- api/views_org_divisions.py, api/views_admin_divisions.py and the serializers of
-- api/serializers_admin_divisions.py.
pub mod Kept
pub mod Elsewhere
use django_boilerplate.Prelude.{
  String, Bool, true, false, not, ◌&&◌, ◌||◌, Option, none, some, List, [], ◌∷◌, ◌++◌, ◌==◌, any,
  first, rows, contains, strip, if◌then◌else◌,
}
use django_boilerplate.Tenants.{
  Status, active, inactive, BillingMode, inherit, independent, Org, Division, Team, Membership,
  Database, Invalid, required, empty_name, name_taken, already_exists, unknown_user, unknown_org,
  Reply, created, updated, deleted, removed, not_found, invalid, integrity_error, type_error,
  ◌orelse◌, refuse_if, name_error, division_error, team_error, has_org, same_null, same_key,
  given_or, change_division, change_team, change_membership, change_org,
}

pub record DivisionAttrs : Type 0 where
  pub org : String
  pub name : String
  pub billing_mode : Option BillingMode
  pub license_tier : Option String
  pub feature_flags : Option String
  pub billing_email : Option String

-- The fields that a request gives; an address that is given may be null.
pub record DivisionChanges : Type 0 where
  pub name : Option String
  pub billing_mode : Option BillingMode
  pub license_tier : Option String
  pub feature_flags : Option String
  pub billing_email : Option (Option String)

-- `Division.objects.filter(org=org, name=name)`
abbrev pub is_namesake : (org name : String) → Division → Bool
is_namesake org name d = d.org_id == org && d.name == name

-- `DivisionCreateSerializer`
unfoldable pub create_error : Database → DivisionAttrs → Option Invalid
create_error db a =
    name_error a.name
    orelse refuse_if (not (has_org db a.org)) unknown_org
    orelse refuse_if (any (is_namesake a.org (strip a.name)) db.divisions) name_taken

abbrev pub is_independent : Option BillingMode → Bool
is_independent (some independent) = true
is_independent (some inherit) = false
is_independent none = false

-- The tier of a division that bills for itself is `free` where neither tier is given.
unfoldable pub tier_or_free : Option BillingMode → (given stored : String) → Option String → String
tier_or_free mode given stored tier =
    if is_independent mode && given == "" && stored == "" then "free" else given_or tier stored

abbrev pub new_division : DivisionAttrs → String → Division
new_division a id = record {
  id = id;
  org_id = a.org;
  name = strip a.name;
  billing_mode = given_or a.billing_mode inherit;
  license_tier = tier_or_free a.billing_mode (given_or a.license_tier "") "" a.license_tier;
  feature_flags = given_or a.feature_flags "{}";
  billing_email = a.billing_email;
}

unless_invalid : Option Invalid → DivisionAttrs → String → Database → Reply × Database
unless_invalid (some e) a id db = (invalid e, db)
unless_invalid none a id db =
    (created id, record db { divisions = db.divisions ++ new_division a id ∷ [] })

-- `create` of `AdminDivisionViewSet`, under an identifier for the new division.
unfoldable pub create_division : DivisionAttrs → String → Database → Reply × Database
unfolding unless_invalid
create_division a id db = unless_invalid (create_error db a) a id db

-- `create` of `OrgDivisionViewSet`: the organisation of the data is the one of the URL.
abbrev pub org_create_division :
    (org : String) → DivisionAttrs → String → Database → Reply × Database
org_create_division org a id db = create_division (record a { org = org }) id db

-- A full update wants the name, a partial one does not.
abbrev pub changed_name_error :
    (partial : Bool) → List Division → Division → Option String → Option Invalid
changed_name_error true ds d none = none
changed_name_error false ds d none = some required
changed_name_error partial ds d (some name) =
    name_error name
    orelse refuse_if (any (λ x. is_namesake d.org_id (strip name) x && not (x.id == d.id)) ds)
        name_taken

-- `DivisionUpdateSerializer`
unfoldable pub update_error :
    (partial : Bool) → Database → Division → DivisionChanges → Option Invalid
update_error partial db d c = changed_name_error partial db.divisions d c.name

abbrev pub stripped_or : Option String → String → String
stripped_or none old = old
stripped_or (some name) old = strip name

abbrev pub with_changes : DivisionChanges → Division → Division
with_changes c d = record d {
  name = stripped_or c.name d.name;
  billing_mode = given_or c.billing_mode d.billing_mode;
  license_tier =
      tier_or_free c.billing_mode (given_or c.license_tier "") d.license_tier c.license_tier;
  feature_flags = given_or c.feature_flags d.feature_flags;
  billing_email = given_or c.billing_email d.billing_email;
}

save_valid : Option Invalid → Division → DivisionChanges → Database → Reply × Database
save_valid (some e) d c db = (invalid e, db)
save_valid none d c db =
    (updated, record db { divisions = change_division d.id (with_changes c) db.divisions })

update_found : (partial : Bool) → Option Division → DivisionChanges → Database → Reply × Database
update_found partial none c db = (not_found, db)
update_found partial (some d) c db = save_valid (update_error partial db d c) d c db

abbrev pub is_division : String → Division → Bool
is_division id d = d.id == id

abbrev pub is_org_division : (org id : String) → Division → Bool
is_org_division org id d = d.id == id && d.org_id == org

-- `update` and `partial_update` of `AdminDivisionViewSet`
unfoldable pub admin_update_division :
    (partial : Bool) → String → DivisionChanges → Database → Reply × Database
unfolding update_found save_valid
admin_update_division partial id c db =
    update_found partial (first (is_division id) db.divisions) c db

-- `update` of `OrgDivisionViewSet`; `partial_update` passes it an argument that it does not take.
unfoldable pub org_update_division :
    (partial : Bool) → (org id : String) → DivisionChanges → Database → Reply × Database
unfolding update_found save_valid
org_update_division true org id c db = (type_error, db)
org_update_division false org id c db =
    update_found false (first (is_org_division org id) db.divisions) c db

abbrev pub in_division : String → Team → Bool
in_division id t = same_key t.division_id (some id)

-- A membership goes with its division, and with a team of it.
abbrev pub goes_with : String → List Team → Membership → Bool
goes_with id ts m =
    same_key m.division_id (some id)
    || any (λ t. in_division id t && same_key m.team_id (some t.id)) ts

-- `division.delete()`, with the teams and memberships that go with it.
unfoldable pub delete_division : String → Database → Database
delete_division id db = record db {
  divisions = rows (λ d. not (d.id == id)) db.divisions;
  teams = rows (λ t. not (in_division id t)) db.teams;
  memberships = rows (λ m. not (goes_with id db.teams m)) db.memberships;
}

delete_found : Option Division → Database → Reply × Database
delete_found none db = (not_found, db)
delete_found (some d) db = (deleted, delete_division d.id db)

-- `destroy` of the views
unfoldable pub admin_delete_division : String → Database → Reply × Database
unfolding delete_found delete_division
admin_delete_division id db = delete_found (first (is_division id) db.divisions) db

unfoldable pub org_delete_division : (org id : String) → Database → Reply × Database
unfolding delete_found delete_division
org_delete_division org id db = delete_found (first (is_org_division org id) db.divisions) db
