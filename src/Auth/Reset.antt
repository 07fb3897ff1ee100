-- ===== src/Auth/Reset.antt =====
-- api/views_password_reset.py: the views that mail a token and the views that take one back.
pub mod Refused
pub mod Unsaved
use django_boilerplate.Prelude.{
  String, Bool, true, false, not, ◌&&◌, Option, none, some, List, ◌==◌, rows, if◌then◌else◌,
  Instant,
}
use django_boilerplate.Crypto.{Digests}
use django_boilerplate.Auth.{
  User, LocalUserProfile, Db, Settings, Hasher, Found, missing, many, one, get_one, has_email,
  profile_of, save_profile,
}
use django_boilerplate.Auth.Profile.{
  set_password, generate_email_verification_token, generate_password_reset_token, verify_email,
  verify_password_reset_token, clear_password_reset_token,
}
use django_boilerplate.Auth.Tokens.{revoke_all_for_user}

-- An email that a view sends, by its address and the token in its link.
pub record Mail : Type 0 where
  pub address : String
  pub token : String

pub data TokenReply : Type 0 where
  token_required refused server_error done : TokenReply

module _ (d : Digests) where
  mail_reset : User → Option LocalUserProfile → String → Instant → Db → Option Mail × Db
  mail_reset u none token now db = (none, db)
  mail_reset u (some p) token now db = (
    some (record { address = u.email; token = token }),
    save_profile (generate_password_reset_token d token now p) db,
  )

  reset_for : Found User → String → Instant → Db → Option Mail × Db
  reset_for (one u) token now db = mail_reset u (profile_of u.id db) token now db
  reset_for _ token now db = (none, db)

  -- `PasswordResetRequestView.post`, with the token that it draws: the email that it sends. It
  -- answers the same in each case, but for the exception that several accounts with the email raise.
  unfoldable pub request_reset : (email token : String) → Instant → Db → Option Mail × Db
  unfolding reset_for mail_reset
  request_reset email token now db =
      reset_for (get_one (rows (has_email email) db.users)) token now db

  mail_verification : User → Option LocalUserProfile → String → Instant → Db → Option Mail × Db
  mail_verification u none token now db = (none, db)
  mail_verification u (some p) token now db = if p.email_verified then (none, db) else (
    some (record { address = u.email; token = token }),
    save_profile (generate_email_verification_token d token now p) db,
  )

  verification_for : Found User → String → Instant → Db → Option Mail × Db
  verification_for (one u) token now db = mail_verification u (profile_of u.id db) token now db
  verification_for _ token now db = (none, db)

  -- `ResendVerificationView.post`
  unfoldable pub resend_verification : (email token : String) → Instant → Db → Option Mail × Db
  unfolding verification_for mail_verification
  resend_verification email token now db =
      verification_for (get_one (rows (has_email email) db.users)) token now db

module _ (d : Digests) (h : Hasher) (st : Settings) where
  -- `save(update_fields=["password_reset_token", "password_reset_sent_at"])` of the object
  -- `m`, over the row `p` that it was loaded from.
  save_reset_fields : (m p : LocalUserProfile) → LocalUserProfile
  save_reset_fields m p = record p {
    password_reset_token = m.password_reset_token;
    password_reset_sent_at = m.password_reset_sent_at;
  }

  set_new : LocalUserProfile → (token new salt : String) → Instant → Db → TokenReply × Db
  set_new p token new salt now db =
      if not (verify_password_reset_token d st token now p)
      then (refused, db)
      else let m = clear_password_reset_token (set_password h salt new p) in
        let saved = save_profile (save_reset_fields m p) db in
        (
          done,
          record saved { refresh_tokens = revoke_all_for_user p.user_id now saved.refresh_tokens },
        )

  confirm_for : Found LocalUserProfile → (token new salt : String) → Instant → Db → TokenReply × Db
  confirm_for missing token new salt now db = (refused, db)
  confirm_for many token new salt now db = (server_error, db)
  confirm_for (one p) token new salt now db = set_new p token new salt now db

  -- `PasswordResetConfirmView.post`
  unfoldable pub confirm_reset : (token new salt : String) → Instant → Db → TokenReply × Db
  unfolding confirm_for set_new save_reset_fields
  confirm_reset token new salt now db =
      confirm_for (get_one (rows (λ p. p.password_reset_token == token) db.profiles)) token new salt
        now db

module _ (d : Digests) (st : Settings) where
  reply_verified : LocalUserProfile × Bool → Db → TokenReply × Db
  reply_verified (p, verified) db = if verified then (done, save_profile p db) else (refused, db)

  verify_for : Found LocalUserProfile → String → Instant → Db → TokenReply × Db
  verify_for missing token now db = (refused, db)
  verify_for many token now db = (server_error, db)
  verify_for (one p) token now db = reply_verified (verify_email d st token now p) db

  unfoldable pub verify_token : String → Instant → Db → TokenReply × Db
  unfolding verify_for reply_verified
  verify_token token now db =
      verify_for (get_one (rows (λ p. p.email_verification_token == token) db.profiles)) token now
        db

  -- `EmailVerificationView.get`; `none` is a URL without a token.
  unfoldable pub get_verify_email : Option String → Instant → Db → TokenReply × Db
  unfolding verify_token
  get_verify_email none now db = (token_required, db)
  get_verify_email (some token) now db =
      if token == "" then (token_required, db) else verify_token token now db
