-- ===== src/Auth/Register.antt =====
-- `RegisterView` of api/views_local_auth.py and `RegisterSerializer` of api/serializers_local_auth.py.
-- `validate_password` runs Django's password validators.
pub mod Unverified
use django_boilerplate.Prelude.{
  String, Bool, true, false, not, ◌&&◌, ◌||◌, none, some, [], ◌∷◌, ◌++◌, ◌==◌, any, if◌then◌else◌,
  Instant, Option, lower_text,
}
use django_boilerplate.Crypto.{Digests}
use django_boilerplate.Auth.{User, LocalUserProfile, Db, Settings, Hasher, has_email, save_profile}
use django_boilerplate.Auth.Profile.{set_password, generate_email_verification_token}

pub data RegisterReply : Type 0 where
  not_enabled invalid server_error : RegisterReply
  registered : (email : String) → RegisterReply

pub record Input : Type 0 where
  pub email : String
  pub password : String
  pub password_confirm : String

-- What the view draws: the key of the user, the salt of the hash and the mailed token.
pub record Draws : Type 0 where
  pub user_id : String
  pub salt : String
  pub token : String

-- `User.objects.create_user`
unfoldable pub new_user : (id email : String) → User
new_user id email = record { id = id; email = email; username = email; is_active = true }

-- `LocalUserProfile.objects.create`
unfoldable pub new_profile : String → LocalUserProfile
new_profile user_id = record {
  user_id = user_id;
  password_hash = "";
  email_verified = false;
  email_verification_token = "";
  email_verification_sent_at = none;
  password_reset_token = "";
  password_reset_sent_at = none;
  roles = "user" ∷ [];
  failed_login_attempts = 0;
  locked_until = none;
  last_login_at = none;
  last_login_ip = none;
}

module _ (d : Digests) (h : Hasher) (st : Settings) (validate_password : String → Bool) where
  is_invalid : Input → Db → Bool
  is_invalid input db =
      any (has_email (lower_text input.email)) db.users
      || not (validate_password input.password)
      || not (input.password == input.password_confirm)

  add_rows : User → LocalUserProfile → Db → Db
  add_rows u p db = record db { users = db.users ++ u ∷ []; profiles = db.profiles ++ p ∷ [] }

  -- The user, the profile, its password and its token, saved one after the other.
  create_account : (email : String) → Input → Draws → Instant → Db → Db
  create_account email input draws now db =
      let empty = new_profile draws.user_id in
      let secured = set_password h draws.salt input.password empty in
      let mailed = generate_email_verification_token d draws.token now secured in
      save_profile mailed (save_profile secured (add_rows (new_user draws.user_id email) empty db))

  -- `post`: the database, and the reply. Its transaction is undone by the exception that a username
  -- which is taken raises.
  unfoldable pub register : Input → Draws → Instant → Db → RegisterReply × Db
  unfolding is_invalid create_account add_rows
  register input draws now db =
      let email = lower_text input.email in
      if not st.local_auth_enabled
      then (not_enabled, db)
      else if is_invalid input db
      then (invalid, db)
      else if any (λ u. u.username == email) db.users
      then (server_error, db)
      else (registered email, create_account email input draws now db)
