-- ===== src/Auth/Login.antt =====
-- `LoginView` of api/views_local_auth.py. Its input is the data that the serializer has validated.
pub mod Guards
pub mod Issued
use django_boilerplate.Prelude.{
  ℕ, ◌+◌, String, Bool, true, false, not, ◌&&◌, Option, none, some, List, [], ◌∷◌, ◌++◌, ◌==◌, rows,
  any, if◌then◌else◌, Instant,
}
use django_boilerplate.Crypto.{Digests}
use django_boilerplate.Auth.{
  User, LocalUserProfile, RefreshToken, MfaToken, TotpDevice, Db, Settings, Hasher, Found, missing,
  many, one, get_one, has_email, profile_of, save_profile, Effect,
}
use django_boilerplate.Auth.Profile.{
  check_password, is_locked, record_login_attempt, lockout_effects,
}
use django_boilerplate.Auth.Tokens.{
  create_for_user, create_mfa_token, Claims, generate_access_token,
}

pub data Reply : Type 0 where
  not_enabled bad_credentials locked disabled unverified server_error : Reply
  mfa_challenge : String → Reply
  tokens : Claims → String → ℕ → Reply

pub record Input : Type 0 where
  pub email : String
  pub password : String
  pub ip : Option String
  pub user_agent : String

-- What the view draws at random: the refresh token, the id and family of its row, the MFA token.
pub record Draws : Type 0 where
  pub refresh_token : String
  pub refresh_id : String
  pub family_id : String
  pub mfa_token : String

unfoldable pub has_mfa_enabled : String → Db → Bool
has_mfa_enabled user_id db = any (λ t. t.user_id == user_id && t.confirmed) db.totp_devices

module _ (d : Digests) (h : Hasher) (st : Settings) where
  -- `profile.record_login_attempt(success=False)`, saved, with the notification of a lockout.
  fail_login : User → LocalUserProfile → Input → Instant → Db → Db
  fail_login u p input now db =
      let (p', lockout_occurred) = record_login_attempt st false input.ip now p in
      let saved = save_profile p' db in
      if lockout_occurred
      then record saved { effects = saved.effects ++ lockout_effects st u input.ip p' }
      else saved

  pub succeed : LocalUserProfile → Input → Instant → Db → Db
  succeed p input now db = save_profile (record_login_attempt st true input.ip now p).0 db

  challenge : User → Draws → Instant → Db → Reply × Db
  challenge u draws now db = (
    mfa_challenge draws.mfa_token,
    record db { mfa_tokens = db.mfa_tokens ++ create_mfa_token u.id draws.mfa_token now ∷ [] },
  )

  issue : User → LocalUserProfile → Input → Draws → Instant → Db → Reply × Db
  issue u p input draws now db = (
    tokens (generate_access_token st u (some p) p.roles none none now) draws.refresh_token
        st.access_token_ttl,
    record db {
      refresh_tokens =
          db.refresh_tokens
          ++ create_for_user d st u.id draws.refresh_token input.user_agent input.ip
              draws.refresh_id draws.family_id now
            ∷ [];
    },
  )

  complete : User → LocalUserProfile → Input → Draws → Instant → Db → Reply × Db
  complete u p input draws now db =
      let after = succeed p input now db in
      if has_mfa_enabled u.id after
      then challenge u draws now after
      else issue u p input draws now after

  with_profile : User → Option LocalUserProfile → Input → Draws → Instant → Db → Reply × Db
  with_profile u none input draws now db = (bad_credentials, db)
  with_profile u (some p) input draws now db =
      if is_locked now p
      then (locked, db)
      else if not (check_password h input.password p)
      then (bad_credentials, fail_login u p input now db)
      else if not u.is_active
      then (disabled, db)
      else if st.email_verification_required && not p.email_verified
      then (unverified, db)
      else complete u p input draws now db

  pub with_user : Found User → Input → Draws → Instant → Db → Reply × Db
  with_user missing input draws now db = (bad_credentials, db)
  with_user many input draws now db = (server_error, db)
  with_user (one u) input draws now db = with_profile u (profile_of u.id db) input draws now db

  unfoldable pub login : Input → Draws → Instant → Db → Reply × Db
  unfolding with_user with_profile complete issue challenge succeed fail_login
  login input draws now db =
      if st.local_auth_enabled
      then with_user (get_one (rows (has_email input.email) db.users)) input draws now db
      else (not_enabled, db)
