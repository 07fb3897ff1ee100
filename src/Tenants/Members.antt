-- ===== src/Tenants/Members.antt =====
-- api/views_org_members.py, api/views_admin_memberships.py and the serializers of
-- api/serializers_admin_memberships.py.
pub mod Kept
pub mod Elsewhere
pub mod Second
use django_boilerplate.Prelude.{
  String, Bool, true, false, not, ◌&&◌, ◌||◌, Option, none, some, List, [], ◌∷◌, ◌++◌, ◌==◌, any,
  first, rows, contains, strip, if◌then◌else◌,
}
use django_boilerplate.Tenants.{
  Status, active, inactive, BillingMode, inherit, independent, Org, Division, Team, Membership,
  Database, Invalid, required, empty_name, name_taken, already_exists, unknown_user, unknown_org,
  Reply, created, updated, deleted, removed, not_found, invalid, integrity_error, type_error,
  ◌orelse◌, refuse_if, name_error, division_error, team_error, has_org, same_null, same_key,
  given_or, change_division, change_team, change_membership, change_org,
}

pub record MembershipAttrs : Type 0 where
  pub user : String
  pub org : String
  pub division : Option String
  pub team : Option String
  pub org_roles : List String
  pub division_roles : List String
  pub team_roles : List String

-- The fields that a request gives; a division or a team that is given may be null.
pub record MembershipChanges : Type 0 where
  pub org_roles : Option (List String)
  pub division_roles : Option (List String)
  pub team_roles : Option (List String)
  pub division : Option (Option String)
  pub team : Option (Option String)

-- `Membership.objects.filter(user=user, org=org, team=team)`
abbrev pub is_existing : MembershipAttrs → Membership → Bool
is_existing a m = m.user_id == a.user && m.org_id == a.org && same_null m.team_id a.team

-- `MembershipCreateSerializer`
unfoldable pub create_error : Database → MembershipAttrs → Option Invalid
create_error db a =
    refuse_if (not (contains db.users a.user)) unknown_user
    orelse refuse_if (not (has_org db a.org)) unknown_org
    orelse refuse_if (any (is_existing a) db.memberships) already_exists
    orelse division_error db.divisions a.org a.division
    orelse team_error db.teams a.org a.team

abbrev pub new_membership : MembershipAttrs → String → Membership
new_membership a id = record {
  id = id;
  user_id = a.user;
  org_id = a.org;
  division_id = a.division;
  team_id = a.team;
  org_roles = a.org_roles;
  division_roles = a.division_roles;
  team_roles = a.team_roles;
}

unless_invalid : Option Invalid → MembershipAttrs → String → Database → Reply × Database
unless_invalid (some e) a id db = (invalid e, db)
unless_invalid none a id db =
    (created id, record db { memberships = db.memberships ++ new_membership a id ∷ [] })

-- `post` of the administrator's view, under an identifier for the new membership.
unfoldable pub add_member : MembershipAttrs → String → Database → Reply × Database
unfolding unless_invalid
add_member a id db = unless_invalid (create_error db a) a id db

-- `post` of `OrgMemberListCreateView`: the organisation of the data is the one of the URL.
abbrev pub org_add_member : (org : String) → MembershipAttrs → String → Database → Reply × Database
org_add_member org a id db = add_member (record a { org = org }) id db

abbrev pub is_member : (org user : String) → Membership → Bool
is_member org user m = m.user_id == user && m.org_id == org

remove_found : List Membership → (org user : String) → Database → Reply × Database
remove_found [] org user db = (not_found, db)
remove_found (m ∷ ms) org user db = (
  removed (m ∷ ms),
  record db { memberships = rows (λ x. not (is_member org user x)) db.memberships },
)

-- `delete` of `OrgMemberDetailView`
unfoldable pub remove_member : (org user : String) → Database → Reply × Database
unfolding remove_found
remove_member org user db = remove_found (rows (is_member org user) db.memberships) org user db

abbrev pub given_division_error : List Division → String → Option (Option String) → Option Invalid
given_division_error ds org none = none
given_division_error ds org (some d) = division_error ds org d

abbrev pub given_team_error : List Team → String → Option (Option String) → Option Invalid
given_team_error ts org none = none
given_team_error ts org (some t) = team_error ts org t

-- `MembershipUpdateSerializer`
unfoldable pub update_error : Database → Membership → MembershipChanges → Option Invalid
update_error db m c =
    given_division_error db.divisions m.org_id c.division
    orelse given_team_error db.teams m.org_id c.team

abbrev pub with_changes : MembershipChanges → Membership → Membership
with_changes c m = record m {
  org_roles = given_or c.org_roles m.org_roles;
  division_roles = given_or c.division_roles m.division_roles;
  team_roles = given_or c.team_roles m.team_roles;
  division_id = given_or c.division m.division_id;
  team_id = given_or c.team m.team_id;
}

-- A row that the unique constraint on user, organisation, division and team does not let in.
abbrev pub clashes : Membership → Membership → Bool
clashes m x =
    not (x.id == m.id)
    && x.user_id == m.user_id
    && x.org_id == m.org_id
    && same_key x.division_id m.division_id
    && same_key x.team_id m.team_id

save_membership : Bool → Membership → MembershipChanges → Database → Reply × Database
save_membership clash m c db = if clash then (integrity_error, db) else (
  updated,
  record db { memberships = change_membership m.id (with_changes c) db.memberships },
)

save_valid : Option Invalid → Membership → MembershipChanges → Database → Reply × Database
save_valid (some e) m c db = (invalid e, db)
save_valid none m c db = save_membership (any (clashes (with_changes c m)) db.memberships) m c db

update_found : Option Membership → MembershipChanges → Database → Reply × Database
update_found none c db = (not_found, db)
update_found (some m) c db = save_valid (update_error db m c) m c db

-- `put` of `AdminMembershipDetailView`
unfoldable pub update_membership : String → MembershipChanges → Database → Reply × Database
unfolding update_found save_valid save_membership
update_membership id c db = update_found (first (λ m. m.id == id) db.memberships) c db

delete_found : Option Membership → Database → Reply × Database
delete_found none db = (not_found, db)
delete_found (some m) db =
    (deleted, record db { memberships = rows (λ x. not (x.id == m.id)) db.memberships })

-- `delete` of `AdminMembershipDetailView`
unfoldable pub delete_membership : String → Database → Reply × Database
unfolding delete_found
delete_membership id db = delete_found (first (λ m. m.id == id) db.memberships) db
