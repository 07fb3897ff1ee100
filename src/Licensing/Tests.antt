-- ===== src/Licensing/Tests.antt =====
-- Licenses of concrete organisations and divisions.
use django_boilerplate.Prelude.{
  ◌≡◌, ◌≤◌, refl, arith, String, Option, List, some, none, [], ◌∷◌, pos, lookup, put, merge, length,
  rows,
}
use django_boilerplate.Licensing.{
  num, Features, Tiers, Org, Division, independent, get_division_license,
}
use django_boilerplate.Licensing.Stored.{Setting, global, org, text, is_org_setting}

abbrev tiers : Tiers
tiers =
    ("free", ("max_users", num (pos 5)) ∷ [])
    ∷ ("pro", ("max_users", num (pos 50)) ∷ ("max_api_keys", num (pos 20)) ∷ [])
    ∷ []

abbrev acme : Org
acme = record { license_tier = "free"; feature_flags = ("max_users", num (pos 7)) ∷ [] }

abbrev research : Division
research = record {
  org = acme;
  billing_mode = independent;
  license_tier = "pro";
  feature_flags = ("max_api_keys", num (pos 30)) ∷ [];
}

-- The organisation's flag does not reach a division that bills for itself.
users_run : lookup "max_users" (get_division_license tiers research).features ≡ some (num (pos 50))
unfolding get_division_license lookup put merge
users_run = refl

abbrev no_json : String → Option Features
no_json t = none

abbrev settings : List Setting
settings =
    record {
      scope = global;
      org_id = none;
      key = "license_tier";
      value = text "free";
      created_at = 1;
    }
    ∷ record {
      scope = org;
      org_id = some "acme";
      key = "license_tier";
      value = text "starter";
      created_at = 2;
    }
    ∷ []

one_tier : length (rows (is_org_setting "acme" "license_tier") settings) ≤ 1
one_tier = omega arith

no_flags : length (rows (is_org_setting "acme" "feature_flags") settings) ≤ 1
no_flags = omega arith
