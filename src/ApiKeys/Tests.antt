-- ===== src/ApiKeys/Tests.antt =====
-- API keys of a user with a quota of two.
use django_boilerplate.Prelude.{◌≡◌, ◌≤◌, refl, String, false, List, [], ◌∷◌, pos, arith}
use django_boilerplate.Licensing.{Feature, num}
use django_boilerplate.ApiKeys.{UserApiKey, active_keys, create, is_exceeded, revoke}
use django_boilerplate.ApiKeys.Quota.{Op, creation, revocation, apply_all, quota_kept}

abbrev key : String → UserApiKey
key id = record {
  id = id;
  user_id = "1";
  prefix = id;
  key_hash = id;
  name = "key";
  created = 0;
  revoked = false;
}

abbrev quota : String → Feature
quota user_id = num (pos 2)

abbrev ops : List Op
ops =
    creation (key "a")
    ∷ creation (key "b")
    ∷ creation (key "c")
    ∷ revocation "1" "a"
    ∷ creation (key "d")
    ∷ []

ops_run : active_keys "1" (apply_all quota ops []) ≡ 2
unfolding active_keys apply_all create is_exceeded revoke
ops_run = refl

none_active : active_keys "1" [] ≤ 2
unfolding active_keys
none_active = omega arith

quota_kept_example : active_keys "1" (apply_all quota ops []) ≤ 2
quota_kept_example = quota_kept quota "1" 2 ops [] refl none_active
