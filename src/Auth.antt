-- ===== src/Auth.antt =====
-- Local authentication: api/models_local_auth.py, api/models_mfa.py, api/local_jwt.py and the views over
-- them. This file has the tables, the settings and what the code takes from Django.
pub mod Profile
pub mod Saved
pub mod Lookup
pub mod Tokens
pub mod Login
pub mod Register
pub mod Session
pub mod Reset
pub mod Admin
pub mod Mfa
mod Tests
use django_boilerplate.Prelude.{
  ℕ, ◌≡◌, String, Bool, true, false, Option, none, some, List, [], ◌∷◌, ◌==◌, first, if◌then◌else◌,
  lower, codes_eq, Instant,
}

pub record User : Type 0 where
  pub id : String
  pub email : String
  pub username : String
  pub is_active : Bool

-- `LocalUserProfile`; `user_id` is its one-to-one key.
pub record LocalUserProfile : Type 0 where
  pub user_id : String
  pub password_hash : String
  pub email_verified : Bool
  pub email_verification_token : String
  pub email_verification_sent_at : Option Instant
  pub password_reset_token : String
  pub password_reset_sent_at : Option Instant
  pub roles : List String
  pub failed_login_attempts : ℕ
  pub locked_until : Option Instant
  pub last_login_at : Option Instant
  pub last_login_ip : Option String

pub record RefreshToken : Type 0 where
  pub id : String
  pub user_id : String
  pub token_hash : String
  pub expires_at : Instant
  pub revoked_at : Option Instant
  pub user_agent : String
  pub ip_address : Option String
  pub family_id : String
  pub generation : ℕ
  pub replaced_by : Option String

pub record MfaToken : Type 0 where
  pub user_id : String
  pub token : String
  pub expires_at : Instant
  pub used : Bool

-- `TOTPDevice`; the backup codes are the list that `backup_codes_json` decodes to.
pub record TotpDevice : Type 0 where
  pub user_id : String
  pub secret : String
  pub confirmed : Bool
  pub last_used_at : Option Instant
  pub backup_codes : List String

-- What a lockout sets going.
pub data Effect : Type 0 where
  audit_locked : (user_id : String) (failure_count : ℕ) (until : Option Instant) → Effect
  notify_locked : (email : String) → Effect
  track_lockout : (username email : String) (ip : Option String) → Effect
  check_mass_lockout : Effect

pub record Db : Type 0 where
  pub users : List User
  pub profiles : List LocalUserProfile
  pub refresh_tokens : List RefreshToken
  pub mfa_tokens : List MfaToken
  pub totp_devices : List TotpDevice
  pub effects : List Effect

pub record Settings : Type 0 where
  pub local_auth_enabled : Bool
  pub max_failed_attempts : ℕ
  pub lockout_duration : ℕ
  pub email_verification_required : Bool
  pub email_verification_token_ttl : ℕ
  pub password_reset_token_ttl : ℕ
  pub access_token_ttl : ℕ
  pub refresh_token_ttl : ℕ
  pub issuer : String
  pub audience : String
  pub lockout_notification_enabled : Bool

-- `make_password` (with the salt that it draws) and `check_password` of `django.contrib.auth.hashers`.
pub record Hasher : Type 0 where
  pub make_password : (salt raw : String) → String
  pub check_password : (raw stored : String) → Bool
  pub check-make : (salt raw : String) → check_password raw (make_password salt raw) ≡ true

-- What `objects.get` finds: no row, one, or more (it raises in the first and the last case).
pub data Found (A : Type 0) : Type 0 where
  missing many : Found A
  one : A → Found A

abbrev pub get_one : {A : Type 0} → List A → Found A
get_one [] = missing
get_one (x ∷ []) = one x
get_one (x ∷ y ∷ xs) = many

abbrev pub has_email : String → User → Bool
has_email email u = codes_eq (lower u.email) (lower email)

abbrev pub profile_of : String → Db → Option LocalUserProfile
profile_of user_id db = first (λ p. p.user_id == user_id) db.profiles

-- A row is saved over the row with its key.
abbrev pub put_profile : LocalUserProfile → List LocalUserProfile → List LocalUserProfile
put_profile p [] = []
put_profile p (q ∷ qs) = (if q.user_id == p.user_id then p else q) ∷ put_profile p qs

abbrev pub save_profile : LocalUserProfile → Db → Db
save_profile p db = record db { profiles = put_profile p db.profiles }
