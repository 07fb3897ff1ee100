-- ===== src/Tenants/Members/Second.antt =====
-- A member who is to join a second division.
use django_boilerplate.Prelude.{◌≡◌, refl, String, true, Option, any, contains}
use django_boilerplate.Tenants.{already_exists, Database, invalid, has_org}
use django_boilerplate.Tenants.Members.{
  MembershipAttrs, is_existing, create_error, add_member, unless_invalid,
}

-- A user of an organisation has a membership with the team that a request names, or without a team as
-- the request does. Then a membership in any division of the organisation is refused as one that exists,
-- though the unique constraint of the table tells divisions apart.
pub second_division_refused :
    (db : Database) (a : MembershipAttrs) (id : String)
    → contains db.users a.user ≡ true
    → has_org db a.org ≡ true
    → any (is_existing a) db.memberships ≡ true
    → (division : Option String)
    → add_member (record a { division = division }) id db ≡ (invalid already_exists, db)
unfolding add_member create_error unless_invalid
second_division_refused db a id known there again division = rw (known, there, again) refl
