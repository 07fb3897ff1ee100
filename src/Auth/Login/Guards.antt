-- ===== src/Auth/Login/Guards.antt =====
-- When `LoginView` of api/views_local_auth.py hands out tokens, and what a refused login changes.
use django_boilerplate.Prelude.{
  ◌≡◌, ◌↔◌, ◌⊎◌, refl, ap, sym, ◌∙◌, Bool, true, false, not, ◌&&◌, Bool-cases, Option-cases, inl,
  inr, none, some, arith, rows, if-true, if-false, Instant,
}
use django_boilerplate.Crypto.{Digests}
use django_boilerplate.Auth.{
  User, LocalUserProfile, Db, Settings, Hasher, Found, missing, many, one, get_one, has_email,
  profile_of,
}
use django_boilerplate.Auth.Profile.{check_password, is_locked}
use django_boilerplate.Auth.Login.{
  Reply, Input, Draws, has_mfa_enabled, login, with_user, with_profile, complete, issue, challenge,
  succeed, tokens, not_enabled, unverified,
}

abbrev pub issues_tokens : Reply → Bool
issues_tokens (tokens c t ttl) = true
issues_tokens _ = false

module _ (h : Hasher) (st : Settings) (input : Input) (now : Instant) (db : Db) where
  -- What a login by password alone takes.
  pub record IsCleared (u : User) (p : LocalUserProfile) : Type 0 where
    pub unlocked : is_locked now p ≡ false
    pub right_password : check_password h input.password p ≡ true
    pub active : u.is_active ≡ true
    pub verified : (not st.email_verification_required) ≡ true ⊎ p.email_verified ≡ true
    pub no_second_factor : has_mfa_enabled u.id db ≡ false

module _ (d : Digests) (h : Hasher) (st : Settings) (input : Input) (draws : Draws) (now : Instant)
    (db : Db) where
  pub same_devices :
      (u : User) (p : LocalUserProfile)
      → has_mfa_enabled u.id (succeed d h st p input now db) ≡ has_mfa_enabled u.id db
  unfolding has_mfa_enabled succeed
  same_devices u p = refl

  complete-tokens :
      (u : User) (p : LocalUserProfile)
      → issues_tokens (complete d h st u p input draws now db).0 ≡ not (has_mfa_enabled u.id db)
  unfolding complete challenge issue succeed has_mfa_enabled
  complete-tokens u p = ground arith

  cleared : User → LocalUserProfile → Bool
  cleared u p =
      not (is_locked now p)
      && check_password h input.password p
      && u.is_active
      && not (st.email_verification_required && not p.email_verified)
      && not (has_mfa_enabled u.id db)

  with_profile-tokens :
      (u : User) (p : LocalUserProfile)
      → issues_tokens (with_profile d h st u (some p) input draws now db).0 ≡ cleared u p
  unfolding with_profile cleared
  with_profile-tokens u p = ground (arith, complete-tokens u p)

  IsCleared-of_cleared :
      (u : User) (p : LocalUserProfile) → cleared u p ≡ true → IsCleared h st input now db u p
  unfolding cleared
  IsCleared-of_cleared u p c = record {
    unlocked = ground arith;
    right_password = ground arith;
    active = ground arith;
    verified = ground arith;
    no_second_factor = ground arith;
  }

  cleared-of_IsCleared :
      (u : User) (p : LocalUserProfile) → IsCleared h st input now db u p → cleared u p ≡ true
  unfolding cleared
  cleared-of_IsCleared u p c =
      rw (c.unlocked, c.right_password, c.active, c.no_second_factor) (ground (arith, c.verified))

  -- Who logs in by password alone.
  abbrev pub ClearedUser : Type 0
  ClearedUser =
      (u : User) × (p : LocalUserProfile) × (get_one (rows (has_email input.email) db.users)
        ≡ one u)
      × (profile_of u.id db ≡ some p)
      × IsCleared h st input now db u p

  reply-of_none :
      (u : User)
      → profile_of u.id db ≡ none
      → issues_tokens (with_user d h st (one u) input draws now db).0 ≡ false
  unfolding with_user with_profile
  reply-of_none u e = rw e refl

  reply-of_profile :
      (u : User) (p : LocalUserProfile)
      → profile_of u.id db ≡ some p
      → issues_tokens (with_user d h st (one u) input draws now db).0 ≡ cleared u p
  unfolding with_user
  reply-of_profile u p e =
      ap (λ o. issues_tokens (with_profile d h st u o input draws now db).0) e
      ∙ with_profile-tokens u p

  pub reply-on :
      st.local_auth_enabled ≡ true
      → login d h st input draws now db
        ≡ with_user d h st (get_one (rows (has_email input.email) db.users)) input draws now db
  unfolding login
  reply-on on = if-true _ _ _ on

  reply-off : st.local_auth_enabled ≡ false → login d h st input draws now db ≡ (not_enabled, db)
  unfolding login
  reply-off off = if-false _ _ _ off

  with_found :
      (f : Found User)
      → get_one (rows (has_email input.email) db.users) ≡ f
      → issues_tokens (with_user d h st f input draws now db).0 ≡ true
      → ClearedUser
  unfolding with_user
  with_found missing e t = ground arith
  with_found many e t = ground arith
  with_found (one u) e t = elim (Option-cases (profile_of u.id db)) [
    | inl none_found ↦ ground (arith, reply-of_none u none_found)
    | inr (p, found) ↦
        (u, p, e, found, IsCleared-of_cleared u p (sym (reply-of_profile u p found) ∙ t))
  ]

  with_cleared :
      st.local_auth_enabled ≡ true
      → ClearedUser
      → issues_tokens (login d h st input draws now db).0 ≡ true
  with_cleared on (u, p, e, found, c) =
      ap (λ r. issues_tokens r.0) (reply-on on)
      ∙ ap (λ f. issues_tokens (with_user d h st f input draws now db).0) e
      ∙ reply-of_profile u p found
      ∙ cleared-of_IsCleared u p c

  -- A login hands out tokens exactly if local login is on, the email is that of one account with
  -- a profile, the account is not locked and is active, the password is right, the email is verified
  -- where that is required, and no second factor is set up.
  pub login_cleared :
      issues_tokens (login d h st input draws now db).0 ≡ true
      ↔ ((st.local_auth_enabled ≡ true) × ClearedUser)
  login_cleared = (
    λ t. elim (Bool-cases st.local_auth_enabled) [
      | inl on ↦ (on, with_found _ refl (sym (ap (λ r. issues_tokens r.0) (reply-on on)) ∙ t))
      | inr off ↦ ground (arith, ap (λ r. issues_tokens r.0) (reply-off off))
    ],
    λ (on, c). with_cleared on c,
  )

module _ (d : Digests) (h : Hasher) (st : Settings) (input : Input) (draws : Draws) (now : Instant)
    (db : Db) where
  pub login-unverified :
      (u : User) (p : LocalUserProfile)
      → st.local_auth_enabled ≡ true
      → get_one (rows (has_email input.email) db.users) ≡ one u
      → profile_of u.id db ≡ some p
      → is_locked now p ≡ false
      → check_password h input.password p ≡ true
      → u.is_active ≡ true
      → (st.email_verification_required && not p.email_verified) ≡ true
      → login d h st input draws now db ≡ (unverified, db)
  unfolding with_user with_profile
  login-unverified u p on account profile unlocked right active waiting =
      reply-on d h st input draws now db on
      ∙ ap (λ f. with_user d h st f input draws now db) account
      ∙ ap (λ o. with_profile d h st u o input draws now db) profile
      ∙ if-false _ _ _ unlocked
      ∙ if-false _ _ _ (ap not right)
      ∙ if-false _ _ _ (ap not active)
      ∙ if-true _ _ _ waiting
