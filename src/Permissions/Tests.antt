-- ===== src/Permissions/Tests.antt =====
-- The permissions of an organisation's administrator and a division's.
use django_boilerplate.Prelude.{◌≡◌, ◌⊎◌, ◌↔◌, refl, String, true, false, none, some, List, [], ◌∷◌}
use django_boilerplate.Permissions.{
  TokenClaims, Division, Membership, has_role, extract_roles_from_claims, given,
  is_org_admin_for_org, is_division_admin_for_division,
}
use django_boilerplate.Permissions.Granted.{
  IsAdminOf, IsDivisionAdmin, org_admin_iff, division_grants_sound,
}

abbrev claims : TokenClaims
claims = record {
  sub = some "7";
  realm_access_roles = "org_admin" ∷ [];
  realm_roles = [];
  client_roles = [];
  roles = [];
  org_id = some "acme";
}

abbrev divisions : List Division
divisions = record { id = "lab"; org_id = "other" } ∷ []

abbrev memberships : List Membership
memberships =
    record {
      user_id = "7";
      org_id = "other";
      division_id = some "lab";
      team_id = none;
      org_roles = [];
      division_roles = "division_admin" ∷ [];
    }
    ∷ []

other_org_run : is_org_admin_for_org true claims (some "other") ≡ false
unfolding is_org_admin_for_org extract_roles_from_claims given
other_org_run = refl

org_admin_iff_example : (is_org_admin_for_org true claims (some "acme") ≡ true) ↔ (
    (true ≡ true)
    × ((has_role "platform_admin" claims ≡ true)
        ⊎ ((org : String) × IsAdminOf true claims (some "acme") org)))
org_admin_iff_example = org_admin_iff true claims (some "acme")

lab_run : is_division_admin_for_division divisions memberships true claims (some "lab") ≡ true
unfolding is_division_admin_for_division extract_roles_from_claims given
lab_run = refl

division_grants_sound_example :
    (true ≡ true)
    × ((has_role "platform_admin" claims ≡ true)
        ⊎ IsDivisionAdmin divisions memberships claims (some "lab"))
division_grants_sound_example =
    division_grants_sound divisions memberships claims true (some "lab") lab_run
