-- ===== src/Auth/Profile/MailTokens.antt =====
-- The tokens of api/models_local_auth.py that are mailed in plain text and stored as digests.
use django_boilerplate.Prelude.{
  ◌≡◌, ◌≢◌, ap, sym, ◌∙◌, String, true, false, none, some, arith, eq_iff, leb, ◌+◌, ◌≤◌, if-true,
  if-false, Instant, seconds, eq-false_of_ne,
}
use django_boilerplate.Crypto.{Digests}
use django_boilerplate.Auth.{LocalUserProfile, Settings}
use django_boilerplate.Auth.Profile.{
  verify_email, verify_password_reset_token, token_matches, is_expired,
  generate_email_verification_token, generate_password_reset_token, clear_password_reset_token,
}

module _ (d : Digests) (st : Settings) where
  pub reset-of_other_digest :
      (token : String) (now : Instant) (p : LocalUserProfile)
      → p.password_reset_token ≢ d.sha256 token
      → verify_password_reset_token d st token now p ≡ false
  unfolding verify_password_reset_token token_matches
  reset-of_other_digest token now p ne = ground (arith, eq-false_of_ne _ _ ne)

  pub email-of_other_digest :
      (token : String) (now : Instant) (p : LocalUserProfile)
      → p.email_verification_token ≢ d.sha256 token
      → verify_email d st token now p ≡ (p, false)
  unfolding verify_email token_matches
  email-of_other_digest token now p ne =
      if-false
        (token_matches d st st.email_verification_token_ttl p.email_verification_token
          p.email_verification_sent_at token now)
        _ _ (ground (arith, eq-false_of_ne _ _ ne))

  -- Of the tokens whose digests differ only the one that was generated is accepted for a reset,
  -- until its lifetime has passed. Once it was cleared no token is accepted, whatever it is and
  -- whenever it comes.
  pub reset_token_roundtrip :
      (token other : String) (now later : Instant) (p : LocalUserProfile)
      → let sent = generate_password_reset_token d token now p in
        (verify_password_reset_token d st token later sent
          ≡ leb later (now + seconds st.password_reset_token_ttl))
        × (d.sha256 token ≢ d.sha256 other
            → verify_password_reset_token d st other later sent ≡ false)
        × (verify_password_reset_token d st other later (clear_password_reset_token sent) ≡ false)
  unfolding verify_password_reset_token token_matches is_expired generate_password_reset_token
      clear_password_reset_token
  reset_token_roundtrip token other now later p = (
    ground (
      arith,
      d.sha256-ne-empty token,
      eq_iff (d.sha256 token) "",
      eq_iff (d.sha256 token) (d.sha256 token),
    ),
    λ ne. reset-of_other_digest other later (generate_password_reset_token d token now p) ne,
    ground arith,
  )

  abbrev verified_profile : LocalUserProfile → LocalUserProfile
  verified_profile p = record p {
    email_verified = true;
    email_verification_token = "";
    email_verification_sent_at = none;
  }

  verified :
      (token : String) (now later : Instant) (p : LocalUserProfile)
      → later ≤ now + seconds st.email_verification_token_ttl
      → verify_email d st token later (generate_email_verification_token d token now p)
        ≡ (verified_profile p, true)
  unfolding verify_email token_matches is_expired generate_email_verification_token
  verified token now later p live =
      if-true
        (token_matches d st st.email_verification_token_ttl (d.sha256 token) (some now) token later)
        _ _
        (ground (
          arith,
          d.sha256-ne-empty token,
          eq_iff (d.sha256 token) "",
          eq_iff (d.sha256 token) (d.sha256 token),
        ))

  -- The generated token verifies the email until its lifetime has passed, and a second time it
  -- does not.
  pub email_token_roundtrip :
      (token : String) (now later again : Instant) (p : LocalUserProfile)
      → later ≤ now + seconds st.email_verification_token_ttl
      → let sent = generate_email_verification_token d token now p in
        let after = verify_email d st token later sent in
        (after.1 ≡ true)
        × (after.0.email_verified ≡ true)
        × (verify_email d st token again after.0 ≡ (after.0, false))
  unfolding generate_email_verification_token
  email_token_roundtrip token now later again p live =
      let e = verified token now later p live in
      (
        ap (λ r. r.1) e,
        ap (λ r. r.0.email_verified) e,
        ap (λ r. verify_email d st token again r.0) e
            ∙ email-of_other_digest token again (verified_profile p)
                (λ h. d.sha256-ne-empty token (sym h))
            ∙ sym (ap (λ r. (r.0, false)) e),
      )
