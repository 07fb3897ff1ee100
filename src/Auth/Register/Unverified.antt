-- ===== src/Auth/Register/Unverified.antt =====
-- What a registered account can do before its email is verified.
use django_boilerplate.Prelude.{
  ◌≡◌, ◌≢◌, refl, ap, subst, sym, ◌∙◌, String, Bool, true, false, not, ◌&&◌, inl, inr, Option, none,
  some, List, [], ◌∷◌, ◌++◌, arith, ◌==◌, eq_iff, any, All, rows, rows-append, lower, lower_text,
  if-cases, if-true, Instant,
}
use django_boilerplate.Crypto.{Digests}
use django_boilerplate.Auth.{
  LocalUserProfile, Db, Settings, Hasher, one, get_one, has_email, profile_of, save_profile,
}
use django_boilerplate.Auth.Lookup.{codes_eq-same, rows-none, first-append}
use django_boilerplate.Auth.Saved.{profile-save}
use django_boilerplate.Auth.Profile.{
  set_password, check_password, is_locked, generate_email_verification_token,
}
use django_boilerplate.Auth.Login as Login
use django_boilerplate.Auth.Login.{login, unverified}
use django_boilerplate.Auth.Login.Guards.{login-unverified}
use django_boilerplate.Auth.Reset.{verify_token, TokenReply}
use django_boilerplate.Auth.Reset.Refused.{IsRefusal, verification_refused}
use django_boilerplate.Auth.Register.{
  RegisterReply, registered, Input, Draws, register, new_user, new_profile, is_invalid, add_rows,
  create_account,
}

module _ (d : Digests) (h : Hasher) (st : Settings) (validate_password : String → Bool)
    (input : Input) (draws : Draws) (now : Instant) (db : Db) where
  abbrev email : String
  email = lower_text input.email

  abbrev secured : LocalUserProfile
  secured = set_password h draws.salt input.password (new_profile draws.user_id)

  abbrev mailed : LocalUserProfile
  mailed = generate_email_verification_token d draws.token now secured

  abbrev created : Db
  created = create_account d h st validate_password email input draws now db

  -- What is known of a registration by its reply.
  abbrev IsCreated : RegisterReply × Db → Type 0
  IsCreated (registered e, after) =
      (after ≡ created) × (st.local_auth_enabled ≡ true) × (any (has_email email) db.users ≡ false)
  IsCreated _ = Unit

  register-IsCreated : IsCreated (register d h st validate_password input draws now db)
  unfolding register is_invalid
  register-IsCreated =
      if-cases IsCreated (not st.local_auth_enabled) _ _ (λ off. tt)
        (λ on.
          if-cases IsCreated (is_invalid d h st validate_password input db) _ _ (λ bad. tt)
            (λ good.
              if-cases IsCreated (any (λ u. u.username == email) db.users) _ _ (λ taken. tt)
                (λ free. (refl, ground (arith, on), ground (arith, good)))))

  created-users : created.users ≡ db.users ++ new_user draws.user_id email ∷ []
  unfolding create_account add_rows
  created-users = refl

  created-user :
      any (has_email email) db.users ≡ false
      → get_one (rows (has_email email) created.users) ≡ one (new_user draws.user_id email)
  unfolding new_user
  created-user new =
      ap (λ us. get_one (rows (has_email email) us)) created-users
      ∙ ap get_one (rows-append (has_email email) db.users (new_user draws.user_id email ∷ []))
      ∙ ap (λ us. get_one (us ++ rows (has_email email) (new_user draws.user_id email ∷ [])))
          (rows-none (has_email email) db.users new)
      ∙ ap get_one (if-true _ _ _ (codes_eq-same (lower email)))

  created-profile :
      profile_of draws.user_id db ≡ none → profile_of draws.user_id created ≡ some mailed
  unfolding create_account add_rows set_password generate_email_verification_token new_profile
  created-profile new =
      let empty = new_profile draws.user_id in
      let added = add_rows d h st validate_password (new_user draws.user_id email) empty db in
      profile-save draws.user_id secured mailed (save_profile secured added) refl (
        profile-save draws.user_id empty secured added refl (
          first-append (λ p. p.user_id == draws.user_id) empty db.profiles new
            ((eq_iff draws.user_id draws.user_id).1 refl)))

  -- Attempts to verify an email, one after the other.
  unfoldable pub after_tries : List (String × Instant) → Db → Db
  after_tries [] after = after
  after_tries ((token, at) ∷ tries) after = after_tries tries (verify_token d st token at after).1

  refusal-keeps : (after : Db) (r : TokenReply × Db) → IsRefusal d h st r after → r.1 ≡ after
  refusal-keeps after r (inl e) = ap (λ x. x.1) e
  refusal-keeps after r (inr e) = ap (λ x. x.1) e

  tries-keep :
      (tries : List (String × Instant)) (after : Db)
      → All (λ t. d.sha256 t.0 ≢ t.0) tries
      → after_tries tries after ≡ after
  unfolding after_tries
  tries-keep [] after differ = refl
  tries-keep ((token, at) ∷ tries) after (ne, differ) =
      ap (after_tries tries) (
        refusal-keeps after (verify_token d st token at after)
          (verification_refused d h st token at after ne))
      ∙ tries-keep tries after differ

  abbrev pub by_password : (ip : Option String) (user_agent : String) → Login.Input
  by_password ip user_agent = record {
    email = email;
    password = input.password;
    ip = ip;
    user_agent = user_agent;
  }

  created-login :
      (ip : Option String) (agent : String) (login_draws : Login.Draws) (later : Instant)
      → st.local_auth_enabled ≡ true
      → any (has_email email) db.users ≡ false
      → profile_of draws.user_id db ≡ none
      → st.email_verification_required ≡ true
      → login d h st (by_password ip agent) login_draws later created ≡ (unverified, created)
  unfolding new_user new_profile set_password check_password is_locked
      generate_email_verification_token
  created-login ip agent login_draws later on new fresh required =
      login-unverified d h st (by_password ip agent) login_draws later created
        (new_user draws.user_id email) mailed on (created-user new) (created-profile fresh) refl
        (h.check-make draws.salt input.password) refl (ap (λ b. b && true) required)

  -- Where a login needs a verified email and the key of the new user is not in use, a registered account
  -- is refused a login with its email and password, however often tokens were tried for its
  -- verification: those that are not their own digests, such as the one that was mailed.
  pub registered_unverified :
      (e : String) (tries : List (String × Instant)) (ip : Option String) (agent : String)
      (login_draws : Login.Draws) (later : Instant)
      → (register d h st validate_password input draws now db).0 ≡ registered e
      → profile_of draws.user_id db ≡ none
      → st.email_verification_required ≡ true
      → All (λ t. d.sha256 t.0 ≢ t.0) tries
      → let after = after_tries tries (register d h st validate_password input draws now db).1 in
        login d h st (by_password ip agent) login_draws later after ≡ (unverified, after)
  registered_unverified e tries ip agent login_draws later replied fresh required differ =
      let after = (register d h st validate_password input draws now db).1 in
      let (same, on, new) : (after ≡ created)
          × (st.local_auth_enabled ≡ true)
          × (any (has_email email) db.users ≡ false) =
        subst (λ r. IsCreated (r, after)) replied register-IsCreated in
      subst (λ x. login d h st (by_password ip agent) login_draws later x ≡ (unverified, x))
        (sym (tries-keep tries after differ ∙ same))
        (created-login ip agent login_draws later on new fresh required)
