-- ===== src/Auth/Login/Issued.antt =====
-- The refresh token that `LoginView` hands out, and what `TokenRefreshView` makes of it.
use django_boilerplate.Prelude.{
  ◌≡◌, ◌≢◌, refl, ap, ◌∙◌, String, true, not, ◌&&◌, Option, some, List, [], ◌∷◌, ◌++◌, arith, ◌==◌,
  eq_iff, rows, rows-append, All, first, if◌then◌else◌, if-true, if-false, Instant, ◌+◌, ◌<◌,
  seconds, eq-false_of_ne, ltb, lt→ltb,
}
use django_boilerplate.Crypto.{Digests}
use django_boilerplate.Auth.{
  User, LocalUserProfile, RefreshToken, Db, Settings, Hasher, missing, one, get_one, has_email,
  profile_of,
}
use django_boilerplate.Auth.Tokens.{
  validate_token, is_valid_row, create_for_user, is_null, Claims, generate_access_token,
}
use django_boilerplate.Auth.Login.{
  Input, Draws, login, with_user, with_profile, complete, issue, succeed, tokens,
}
use django_boilerplate.Auth.Login.Guards.{IsCleared, reply-on, same_devices}
use django_boilerplate.Auth.Session.{refresh, name_error}
use django_boilerplate.Auth.Session.Refresh.{refresh-of_valid}

module _ (d : Digests) where
  -- No row has the digest of a token.
  abbrev pub IsFresh : String → List RefreshToken → Type 0
  IsFresh token = All (λ r. r.token_hash ≢ d.sha256 token)

  rows-of_fresh :
      (token : String) (later : Instant) (rs : List RefreshToken)
      → IsFresh token rs
      → rows (is_valid_row d token later) rs ≡ []
  unfolding is_valid_row
  rows-of_fresh token later [] fresh = refl
  rows-of_fresh token later (r ∷ rs) (f, fresh) =
      rw (eq-false_of_ne r.token_hash (d.sha256 token) f) (rows-of_fresh token later rs fresh)

  pub validate-of_fresh :
      (token : String) (later : Instant) (rs : List RefreshToken)
      → IsFresh token rs
      → validate_token d token later rs ≡ missing
  unfolding validate_token
  validate-of_fresh token later rs fresh = ap get_one (rows-of_fresh token later rs fresh)

  valid-new :
      (st : Settings) (user_id token agent : String) (ip : Option String) (id family : String)
      (now later : Instant) (rs : List RefreshToken)
      → IsFresh token rs
      → let r = create_for_user d st user_id token agent ip id family now in
        validate_token d token later (rs ++ r ∷ [])
        ≡ (if ltb later (now + seconds st.refresh_token_ttl) then one r else missing)
  unfolding validate_token is_valid_row is_null create_for_user
  valid-new st user_id token agent ip id family now later rs fresh =
      let r = create_for_user d st user_id token agent ip id family now in
      ap get_one (
        rows-append (is_valid_row d token later) rs (r ∷ [])
        ∙ ap (λ xs. xs ++ rows (is_valid_row d token later) (r ∷ []))
            (rows-of_fresh token later rs fresh))
      ∙ ground (arith, eq_iff (d.sha256 token) (d.sha256 token))

module _ (d : Digests) (h : Hasher) (st : Settings) (input : Input) (draws : Draws) (now : Instant)
    (db : Db) where
  cleared-issue :
      (u : User) (p : LocalUserProfile)
      → IsCleared h st input now db u p
      → with_profile d h st u (some p) input draws now db
        ≡ issue d h st u p input draws now (succeed d h st p input now db)
  unfolding with_profile complete
  cleared-issue u p c =
      if-false _ _ _ c.unlocked
      ∙ if-false _ _ _ (ap not c.right_password)
      ∙ if-false _ _ _ (ap not c.active)
      ∙ if-false (st.email_verification_required && not p.email_verified) _ _
          (ground (arith, c.verified))
      ∙ if-false _ _ _ (same_devices d h st input draws now db u p ∙ c.no_second_factor)

  login-issue :
      st.local_auth_enabled ≡ true
      → (u : User) (p : LocalUserProfile) → get_one (rows (has_email input.email) db.users) ≡ one u
      → profile_of u.id db ≡ some p
      → IsCleared h st input now db u p
      → login d h st input draws now db
        ≡ issue d h st u p input draws now (succeed d h st p input now db)
  unfolding with_user
  login-issue on u p e found c =
      reply-on d h st input draws now db on
      ∙ ap (λ f. with_user d h st f input draws now db) e
      ∙ ap (λ o. with_profile d h st u o input draws now db) found
      ∙ cleared-issue u p c

module _ (d : Digests) (h : Hasher) (st : Settings) (input : Input) (draws : Draws)
    (now later : Instant) (db : Db) (on : st.local_auth_enabled ≡ true) (u : User)
    (p : LocalUserProfile) (account : get_one (rows (has_email input.email) db.users) ≡ one u)
    (profile : profile_of u.id db ≡ some p) (cleared : IsCleared h st input now db u p)
    (fresh : IsFresh d draws.refresh_token db.refresh_tokens) where
  abbrev stored : RefreshToken
  stored =
      create_for_user d st u.id draws.refresh_token input.user_agent input.ip draws.refresh_id
        draws.family_id now

  -- A login that is cleared, with a refresh token whose digest is not in the table, replies with
  -- that token. The table then has its row for the user, valid until the lifetime of refresh tokens
  -- has passed and not after.
  pub issued_token_valid :
      ((c : Claims) × ((login d h st input draws now db).0
          ≡ tokens c draws.refresh_token st.access_token_ttl)
        × (c.sub ≡ u.id))
      × (validate_token d draws.refresh_token later
            (login d h st input draws now db).1.refresh_tokens
          ≡ (if ltb later (now + seconds st.refresh_token_ttl) then one stored else missing))
  unfolding issue succeed generate_access_token
  issued_token_valid =
      let e = login-issue d h st input draws now db on u p account profile cleared in
      (
        (_, ap (λ r. r.0) e, refl),
        ap (λ r. validate_token d draws.refresh_token later r.1.refresh_tokens) e
            ∙ valid-new d st u.id draws.refresh_token input.user_agent input.ip draws.refresh_id
                draws.family_id now later db.refresh_tokens fresh,
      )

  -- A login is cleared, and the digest of the refresh token that is drawn for it is not in the table.
  -- A refresh with that token, before its lifetime has passed and where the user's row is the one with
  -- its id, ends in Python's NameError and changes nothing.
  pub login-refresh :
      first (λ v. v.id == u.id) db.users ≡ some u
      → later < now + seconds st.refresh_token_ttl
      → let after = (login d h st input draws now db).1 in
        refresh d draws.refresh_token later after ≡ (name_error, after)
  unfolding issue succeed create_for_user
  login-refresh own live =
      let after = (login d h st input draws now db).1 in
      let e = login-issue d h st input draws now db on u p account profile cleared in
      refresh-of_valid d draws.refresh_token later after stored u
        (issued_token_valid.1 ∙ if-true _ _ _ (lt→ltb _ _ live)) refl
        (ap (λ r. first (λ v. v.id == u.id) r.1.users) e ∙ own) cleared.active
