-- ===== src/Auth/Tests/Accounts.antt =====
-- The accounts, settings and hashes of the examples.
use django_boilerplate.Prelude.{String, true, false, none, some, [], ◌∷◌, ◌==◌, eq_iff, refl}
use django_boilerplate.Auth.{User, LocalUserProfile, RefreshToken, Db, Settings, Hasher}

abbrev pub plain : Hasher
plain = record {
  make_password = λ salt raw. raw;
  check_password = λ raw stored. raw == stored;
  check-make = λ salt raw. (eq_iff raw raw).1 refl;
}

abbrev pub settings : Settings
settings = record {
  local_auth_enabled = true;
  max_failed_attempts = 3;
  lockout_duration = 1800;
  email_verification_required = true;
  email_verification_token_ttl = 86400;
  password_reset_token_ttl = 3600;
  access_token_ttl = 900;
  refresh_token_ttl = 604800;
  issuer = "local";
  audience = "api";
  lockout_notification_enabled = true;
}

abbrev pub ann : User
ann = record { id = "1"; email = "ann@x"; username = "ann"; is_active = true }

abbrev pub bob : User
bob = record { id = "2"; email = "bob@x"; username = "bob"; is_active = true }

abbrev pub ann_profile : LocalUserProfile
ann_profile = record {
  user_id = "1";
  password_hash = "tea";
  email_verified = true;
  email_verification_token = "";
  email_verification_sent_at = none;
  password_reset_token = "r1#";
  password_reset_sent_at = some 5;
  roles = "user" ∷ [];
  failed_login_attempts = 0;
  locked_until = none;
  last_login_at = none;
  last_login_ip = none;
}

abbrev pub bob_profile : LocalUserProfile
bob_profile = record ann_profile {
  user_id = "2";
  password_hash = "milk";
  password_reset_token = "";
  password_reset_sent_at = none;
}

abbrev pub stored : (id user_id hash : String) → RefreshToken
stored id user_id hash = record {
  id = id;
  user_id = user_id;
  token_hash = hash;
  expires_at = 1000;
  revoked_at = none;
  user_agent = "";
  ip_address = none;
  family_id = id;
  generation = 0;
  replaced_by = none;
}

-- Ann has the refresh token "a" and Bob has "b".
abbrev pub accounts : Db
accounts = record {
  users = ann ∷ bob ∷ [];
  profiles = ann_profile ∷ bob_profile ∷ [];
  refresh_tokens = stored "10" "1" "a#" ∷ stored "11" "2" "b#" ∷ [];
  mfa_tokens = record { user_id = "2"; token = "m1"; expires_at = 1000; used = false } ∷ [];
  totp_devices =
      record {
        user_id = "2";
        secret = "s";
        confirmed = true;
        last_used_at = none;
        backup_codes = "CODE#" ∷ "MORE#" ∷ [];
      }
      ∷ [];
  effects = [];
}
