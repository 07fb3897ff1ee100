-- ===== src/Auth/Reset/Refused.antt =====
-- The confirming views of api/views_password_reset.py look a profile up by the token in the link,
-- where the profile stores the token's digest.
use django_boilerplate.Prelude.{
  ◌≡◌, ◌≢◌, ◌⊎◌, refl, ap, sym, ◌∙◌, String, true, false, not, inl, inr, ◌==◌, if-true, Instant,
  eq_of_eq-true,
}
use django_boilerplate.Crypto.{Digests}
use django_boilerplate.Auth.{LocalUserProfile, Db, Settings, Hasher, Found, missing, many, one}
use django_boilerplate.Auth.Lookup.{IsOne, IsOne-passes}
use django_boilerplate.Auth.Profile.{verify_email, verify_password_reset_token}
use django_boilerplate.Auth.Profile.MailTokens.{reset-of_other_digest, email-of_other_digest}
use django_boilerplate.Auth.Reset.{
  TokenReply, refused, server_error, confirm_reset, confirm_for, set_new, verify_token, verify_for,
  reply_verified,
}

module _ (d : Digests) (h : Hasher) (st : Settings) where
  -- Neither done nor anything changed.
  abbrev pub IsRefusal : TokenReply × Db → Db → Type 0
  IsRefusal after db = (after ≡ (refused, db)) ⊎ (after ≡ (server_error, db))

  stored_plain :
      (p : LocalUserProfile) (token : String) (now : Instant)
      → d.sha256 token ≢ token
      → (p.password_reset_token == token) ≡ true
      → verify_password_reset_token d st token now p ≡ false
  stored_plain p token now ne same =
      reset-of_other_digest d st token now p (λ e. ne (sym e ∙ eq_of_eq-true _ _ same))

  confirm_for-refused :
      (f : Found LocalUserProfile) (token new salt : String) (now : Instant) (db : Db)
      → d.sha256 token ≢ token
      → IsOne (λ p. (p.password_reset_token == token) ≡ true) f
      → IsRefusal (confirm_for d h st f token new salt now db) db
  unfolding confirm_for set_new
  confirm_for-refused missing token new salt now db ne found = inl refl
  confirm_for-refused many token new salt now db ne found = inr refl
  confirm_for-refused (one p) token new salt now db ne found =
      inl (if-true _ _ _ (ap not (stored_plain p token now ne found)))

  -- A token that is not its own digest never resets a password: whatever the table holds, and so
  -- also right after the token was mailed, the confirmation is refused or fails, and nothing changes.
  pub reset_refused :
      (token new salt : String) (now : Instant) (db : Db)
      → d.sha256 token ≢ token
      → IsRefusal (confirm_reset d h st token new salt now db) db
  unfolding confirm_reset
  reset_refused token new salt now db ne =
      confirm_for-refused _ token new salt now db ne (IsOne-passes _ db.profiles)

  plain_unverified :
      (p : LocalUserProfile) (token : String) (now : Instant)
      → d.sha256 token ≢ token
      → (p.email_verification_token == token) ≡ true
      → verify_email d st token now p ≡ (p, false)
  plain_unverified p token now ne same =
      email-of_other_digest d st token now p (λ e. ne (sym e ∙ eq_of_eq-true _ _ same))

  verify_for-refused :
      (f : Found LocalUserProfile) (token : String) (now : Instant) (db : Db)
      → d.sha256 token ≢ token
      → IsOne (λ p. (p.email_verification_token == token) ≡ true) f
      → IsRefusal (verify_for d st f token now db) db
  unfolding verify_for reply_verified
  verify_for-refused missing token now db ne found = inl refl
  verify_for-refused many token now db ne found = inr refl
  verify_for-refused (one p) token now db ne found =
      inl (ap (λ r. reply_verified d st r db) (plain_unverified p token now ne found))

  -- A token that is not its own digest never verifies an email, whatever the table holds.
  pub verification_refused :
      (token : String) (now : Instant) (db : Db)
      → d.sha256 token ≢ token
      → IsRefusal (verify_token d st token now db) db
  unfolding verify_token
  verification_refused token now db ne =
      verify_for-refused _ token now db ne (IsOne-passes _ db.profiles)
