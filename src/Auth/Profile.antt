-- ===== src/Auth/Profile.antt =====
-- `LocalUserProfile` of api/models_local_auth.py: its methods, on the object in memory. The callers
-- save the fields that a method names.
pub mod Lockout
pub mod MailTokens
use django_boilerplate.Prelude.{
  ℕ, ◌+◌, String, Bool, true, false, not, ◌&&◌, Option, none, some, List, [], ◌∷◌, ◌++◌, ◌==◌, leb,
  ltb, if◌then◌else◌, Instant, seconds,
}
use django_boilerplate.Crypto.{Digests}
use django_boilerplate.Auth.{
  User, LocalUserProfile, Settings, Hasher, Effect, audit_locked, notify_locked, track_lockout,
  check_mass_lockout,
}

unfoldable pub set_password : Hasher → (salt raw : String) → LocalUserProfile → LocalUserProfile
set_password h salt raw p = record p { password_hash = h.make_password salt raw }

unfoldable pub check_password : Hasher → String → LocalUserProfile → Bool
check_password h raw p = h.check_password raw p.password_hash

module _ (d : Digests) where
  -- `token` is what `generate_token` draws; it is returned in plain text for the email.
  unfoldable pub generate_email_verification_token :
      String → Instant → LocalUserProfile → LocalUserProfile
  generate_email_verification_token token now p = record p {
    email_verification_token = d.sha256 token;
    email_verification_sent_at = some now;
  }

  unfoldable pub generate_password_reset_token :
      String → Instant → LocalUserProfile → LocalUserProfile
  generate_password_reset_token token now p = record p {
    password_reset_token = d.sha256 token;
    password_reset_sent_at = some now;
  }

-- `token_age.total_seconds() > ttl`, where the token was sent.
is_expired : ℕ → Instant → Option Instant → Bool
is_expired ttl now none = false
is_expired ttl now (some sent) = ltb (sent + seconds ttl) now

module _ (d : Digests) (st : Settings) where
  token_matches : ℕ → String → Option Instant → String → Instant → Bool
  token_matches ttl stored sent_at token now =
      not (stored == "") && not (is_expired ttl now sent_at) && stored == d.sha256 token

  unfoldable pub verify_email : String → Instant → LocalUserProfile → LocalUserProfile × Bool
  unfolding token_matches is_expired
  verify_email token now p =
      if token_matches st.email_verification_token_ttl p.email_verification_token
        p.email_verification_sent_at token now
      then (
        record p {
          email_verified = true;
          email_verification_token = "";
          email_verification_sent_at = none;
        },
        true,
      )
      else (p, false)

  unfoldable pub verify_password_reset_token : String → Instant → LocalUserProfile → Bool
  unfolding token_matches is_expired
  verify_password_reset_token token now p =
      token_matches st.password_reset_token_ttl p.password_reset_token p.password_reset_sent_at
        token now

unfoldable pub clear_password_reset_token : LocalUserProfile → LocalUserProfile
clear_password_reset_token p = record p { password_reset_token = ""; password_reset_sent_at = none }

unfoldable pub is_locked : Instant → LocalUserProfile → Bool
is_locked now p = elim p.locked_until [ none ↦ false | some until ↦ ltb now until ]

module _ (st : Settings) where
  count_failure : LocalUserProfile → LocalUserProfile
  count_failure p = record p { failed_login_attempts = p.failed_login_attempts + 1 }

  lock_if_reached : Instant → LocalUserProfile → LocalUserProfile × Bool
  lock_if_reached now p =
      if leb st.max_failed_attempts p.failed_login_attempts
      then (record p { locked_until = some (now + seconds st.lockout_duration) }, true)
      else (p, false)

  -- The profile, and whether a lockout occurred.
  unfoldable pub record_login_attempt :
      (success : Bool) (ip : Option String) (now : Instant)
      → LocalUserProfile
      → LocalUserProfile × Bool
  unfolding count_failure lock_if_reached
  record_login_attempt true ip now p = (
    record p {
      failed_login_attempts = 0;
      locked_until = none;
      last_login_at = some now;
      last_login_ip = ip;
    },
    false,
  )
  record_login_attempt false ip now p = lock_if_reached now (count_failure p)

  -- `_send_lockout_notification`: the audit entry, the email to the user, and the mass lockout count.
  unfoldable pub lockout_effects : User → Option String → LocalUserProfile → List Effect
  lockout_effects u ip p =
      audit_locked u.id p.failed_login_attempts p.locked_until
        ∷ (if not (u.email == "") && st.lockout_notification_enabled
            then notify_locked u.email ∷ []
            else [])
      ++ track_lockout u.username u.email ip ∷ check_mass_lockout ∷ []
