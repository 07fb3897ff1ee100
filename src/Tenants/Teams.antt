-- ===== src/Tenants/Teams.antt =====
-- api/views_org_teams.py, api/views_admin_teams.py and the serializers of api/serializers_admin_teams.py.
pub mod Kept
pub mod Elsewhere
pub mod Moves
use django_boilerplate.Prelude.{
  String, Bool, not, ◌&&◌, Option, none, some, List, [], ◌∷◌, ◌++◌, ◌==◌, any, first, rows, strip,
  if◌then◌else◌,
}
use django_boilerplate.Tenants.{
  change_team, Division, Team, Membership, Database, Invalid, unknown_org, name_taken, Reply,
  created, updated, deleted, not_found, invalid, integrity_error, ◌orelse◌, refuse_if, name_error,
  division_error, has_org, same_null, same_key, given_or,
}

pub record TeamAttrs : Type 0 where
  pub org : String
  pub division : Option String
  pub name : String

-- The fields that a request gives; a division that is given may be null.
pub record TeamChanges : Type 0 where
  pub name : Option String
  pub division : Option (Option String)

-- `Team.objects.filter(org=org, division=division, name=name)`
abbrev pub is_namesake : (org : String) → Option String → (name : String) → Team → Bool
is_namesake org division name t =
    t.org_id == org && same_null t.division_id division && t.name == name

-- `TeamCreateSerializer`
unfoldable pub create_error : Database → TeamAttrs → Option Invalid
create_error db a =
    name_error a.name
    orelse refuse_if (not (has_org db a.org)) unknown_org
    orelse division_error db.divisions a.org a.division
    orelse refuse_if (any (is_namesake a.org a.division (strip a.name)) db.teams) name_taken

abbrev pub new_team : TeamAttrs → String → Team
new_team a id = record { id = id; org_id = a.org; division_id = a.division; name = strip a.name }

unless_invalid : Option Invalid → TeamAttrs → String → Database → Reply × Database
unless_invalid (some e) a id db = (invalid e, db)
unless_invalid none a id db = (created id, record db { teams = db.teams ++ new_team a id ∷ [] })

-- `post` of the administrator's view, under an identifier for the new team.
unfoldable pub create_team : TeamAttrs → String → Database → Reply × Database
unfolding unless_invalid
create_team a id db = unless_invalid (create_error db a) a id db

-- `post` of `OrgTeamListCreateView`: the organisation of the data is the one of the URL.
abbrev pub org_create_team : (org : String) → TeamAttrs → String → Database → Reply × Database
org_create_team org a id db = create_team (record a { org = org }) id db

abbrev pub changed_name_error : Option String → Option Invalid
changed_name_error none = none
changed_name_error (some name) = name_error name

abbrev pub changed_division_error : List Division → String → Option (Option String) → Option Invalid
changed_division_error ds org none = none
changed_division_error ds org (some d) = division_error ds org d

abbrev pub namesake_error : List Team → Team → Option String → Option String → Option Invalid
namesake_error ts t division none = none
namesake_error ts t division (some name) =
    refuse_if (any (λ x. is_namesake t.org_id division (strip name) x && not (x.id == t.id)) ts)
      name_taken

-- `TeamUpdateSerializer`: the name's uniqueness is looked at where a name is given.
unfoldable pub update_error : Database → Team → TeamChanges → Option Invalid
update_error db t c =
    changed_name_error c.name
    orelse changed_division_error db.divisions t.org_id c.division
    orelse namesake_error db.teams t (given_or c.division t.division_id) c.name

abbrev pub stripped_or : Option String → String → String
stripped_or none old = old
stripped_or (some name) old = strip name

abbrev pub with_changes : TeamChanges → Team → Team
with_changes c t = record t {
  name = stripped_or c.name t.name;
  division_id = given_or c.division t.division_id;
}

-- A row that the unique constraint on organisation, division and name does not let in.
abbrev pub clashes : Team → Team → Bool
clashes t x =
    not (x.id == t.id)
    && x.org_id == t.org_id
    && same_key x.division_id t.division_id
    && x.name == t.name

save_team : Bool → Team → TeamChanges → Database → Reply × Database
save_team clash t c db =
    if clash
    then (integrity_error, db)
    else (updated, record db { teams = change_team t.id (with_changes c) db.teams })

save_valid : Option Invalid → Team → TeamChanges → Database → Reply × Database
save_valid (some e) t c db = (invalid e, db)
save_valid none t c db = save_team (any (clashes (with_changes c t)) db.teams) t c db

update_found : Option Team → TeamChanges → Database → Reply × Database
update_found none c db = (not_found, db)
update_found (some t) c db = save_valid (update_error db t c) t c db

abbrev pub is_team : String → Team → Bool
is_team id t = t.id == id

abbrev pub is_org_team : (org id : String) → Team → Bool
is_org_team org id t = t.id == id && t.org_id == org

-- `put` of `AdminTeamDetailView`
unfoldable pub admin_update_team : String → TeamChanges → Database → Reply × Database
unfolding update_found save_valid save_team
admin_update_team id c db = update_found (first (is_team id) db.teams) c db

-- `put` of `OrgTeamDetailView`
unfoldable pub org_update_team : (org id : String) → TeamChanges → Database → Reply × Database
unfolding update_found save_valid save_team
org_update_team org id c db = update_found (first (is_org_team org id) db.teams) c db

-- `team.delete()`, with the memberships that go with it.
unfoldable pub delete_team : String → Database → Database
delete_team id db = record db {
  teams = rows (λ t. not (t.id == id)) db.teams;
  memberships = rows (λ m. not (same_key m.team_id (some id))) db.memberships;
}

delete_found : Option Team → Database → Reply × Database
delete_found none db = (not_found, db)
delete_found (some t) db = (deleted, delete_team t.id db)

unfoldable pub admin_delete_team : String → Database → Reply × Database
unfolding delete_found delete_team
admin_delete_team id db = delete_found (first (is_team id) db.teams) db

unfoldable pub org_delete_team : (org id : String) → Database → Reply × Database
unfolding delete_found delete_team
org_delete_team org id db = delete_found (first (is_org_team org id) db.teams) db
