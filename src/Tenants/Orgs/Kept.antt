-- ===== src/Tenants/Orgs/Kept.antt =====
-- The requests on organisations keep the tables valid.
use django_boilerplate.Prelude.{String, Option, none, some, first, List, ◌==◌}
use django_boilerplate.Tenants.{Invalid, Org, Database, name_error}
use django_boilerplate.Tenants.Orgs.{
  OrgAttrs, OrgChanges, create_org, unless_invalid, update_org, update_found, save_valid,
  deactivate_org, deactivate_found, changed_name_error,
}
use django_boilerplate.Tenants.Valid.{IsValid}

module _ (db : Database) (v : IsValid db) where
  -- The organisations are none of the tables that the invariant reads.
  set_orgs-IsValid : (orgs : List Org) → IsValid (record db { orgs = orgs })
  set_orgs-IsValid orgs = record {
    divisions_unique = v.divisions_unique;
    teams_unique = v.teams_unique;
    memberships_unique = v.memberships_unique;
    teams_within = v.teams_within;
    members_divisions = v.members_divisions;
    members_teams = v.members_teams;
  }

  created-IsValid :
      (e : Option Invalid) (a : OrgAttrs) (id : String) → IsValid (unless_invalid e a id db).1
  unfolding unless_invalid
  created-IsValid none a id = set_orgs-IsValid _
  created-IsValid (some e) a id = v

  pub create_org-IsValid : (a : OrgAttrs) (id : String) → IsValid (create_org a id db).1
  unfolding create_org
  create_org-IsValid a id = created-IsValid (name_error a.name) a id

  saved-IsValid : (e : Option Invalid) (o : Org) (c : OrgChanges) → IsValid (save_valid e o c db).1
  unfolding save_valid
  saved-IsValid none o c = set_orgs-IsValid _
  saved-IsValid (some e) o c = v

  found-IsValid : (o : Option Org) (c : OrgChanges) → IsValid (update_found o c db).1
  unfolding update_found
  found-IsValid none c = v
  found-IsValid (some o) c = saved-IsValid (changed_name_error c.name) o c

  pub update_org-IsValid : (id : String) (c : OrgChanges) → IsValid (update_org id c db).1
  unfolding update_org
  update_org-IsValid id c = found-IsValid (first (λ o. o.id == id) db.orgs) c

  deactivated-IsValid : (o : Option Org) → IsValid (deactivate_found o db).1
  unfolding deactivate_found
  deactivated-IsValid none = v
  deactivated-IsValid (some o) = set_orgs-IsValid _

  pub deactivate_org-IsValid : (id : String) → IsValid (deactivate_org id db).1
  unfolding deactivate_org
  deactivate_org-IsValid id = deactivated-IsValid (first (λ o. o.id == id) db.orgs)
