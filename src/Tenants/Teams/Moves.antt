-- ===== src/Tenants/Teams/Moves.antt =====
-- A team that is moved without a name, for which the serializer does not look for a namesake.
use django_boilerplate.Prelude.{◌≡◌, refl, String, true, none, some, any, first, eq_iff, arith}
use django_boilerplate.Tenants.{Team, Database, integrity_error, division_owner, division_error}
use django_boilerplate.Tenants.Teams.{
  TeamChanges, with_changes, clashes, update_error, is_team, admin_update_team,
}

abbrev pub moved_to : String → TeamChanges
moved_to d = record { name = none; division = some (some d) }

-- A platform administrator moves a team to a division of its organisation in which another team of the
-- organisation has its name, and gives no name. Then the serializer accepts the request and saving
-- raises the exception of the unique constraint; nothing is changed.
pub move_raises :
    (db : Database) (id d : String) (t : Team)
    → first (is_team id) db.teams ≡ some t
    → division_owner d db.divisions ≡ some t.org_id
    → any (clashes (with_changes (moved_to d) t)) db.teams ≡ true
    → (update_error db t (moved_to d) ≡ none)
      × (admin_update_team id (moved_to d) db ≡ (integrity_error, db))
unfolding admin_update_team update_error division_error
move_raises db id d t found owned clash =
    let accepted : division_error db.divisions t.org_id (some d) ≡ none =
      rw owned (ground (arith, eq_iff t.org_id t.org_id)) in
    (rw accepted refl, rw (found, accepted, clash) refl)
