-- ===== src/Auth/Mfa/Verify.antt =====
-- `MFAVerifyView` of api/views_mfa.py, with its throttles, and `generate_refresh_token` of
-- api/local_jwt.py. The signing of a token (Authlib) is not part of the repository.
pub mod SingleUse
pub mod Unstored
use django_boilerplate.Prelude.{
  ℕ, ◌+◌, ◌/◌, String, Bool, true, false, not, ◌&&◌, ◌||◌, Option, none, some, List, [], ◌∷◌, ◌==◌,
  rows, first, if◌then◌else◌, Instant,
}
use django_boilerplate.Crypto.{Digests}
use django_boilerplate.Cache.{Cache}
use django_boilerplate.Throttle.Mfa as MfaThrottle
use django_boilerplate.Throttle.Mfa.{Kind, ident, allow_all, increment_mfa_failures}
use django_boilerplate.Auth.{
  User, LocalUserProfile, MfaToken, TotpDevice, Db, Settings, Found, missing, many, one, get_one,
  profile_of,
}
use django_boilerplate.Auth.Tokens.{is_valid, consume, Claims, generate_access_token}
use django_boilerplate.Auth.Mfa.{Totp, verify_either, get_device, save_device}

-- The claims of the refresh token.
pub record RefreshClaims : Type 0 where
  pub iss : String
  pub sub : String
  pub exp : ℕ
  pub iat : ℕ
  pub nbf : ℕ
  pub jti : String
  pub typ : String
  pub token_type : String

lifetime_or : ℕ → Option ℕ → ℕ
lifetime_or ttl none = ttl
lifetime_or ttl (some given) = given

-- `generate_refresh_token`, with the identifier that it draws.
unfoldable pub generate_refresh_token :
    Settings → User → Option ℕ → (jti : String) → Instant → RefreshClaims
unfolding lifetime_or
generate_refresh_token st u ttl jti now =
    let at = now / 1000000 in
    record {
      iss = st.issuer;
      sub = u.id;
      exp = at + lifetime_or st.refresh_token_ttl ttl;
      iat = at;
      nbf = at;
      jti = jti;
      typ = "refresh";
      token_type = "local";
    }

pub data MfaReply : Type 0 where
  throttled missing_input invalid_token token_expired not_configured wrong_code server_error :
      MfaReply
  accepted : (access : Claims) (refresh_token : String) → MfaReply

-- A token is saved over the row with its text, which is unique.
unfoldable pub put_token : MfaToken → List MfaToken → List MfaToken
put_token t [] = []
put_token t (u ∷ us) = (if u.token == t.token then t else u) ∷ put_token t us

abbrev roles_of : Option LocalUserProfile → List String
roles_of none = []
roles_of (some p) = p.roles

module _ (d : Digests) (totp : Totp) (st : Settings) (encode : RefreshClaims → String) where
  issue : User → (jti : String) → Instant → Db → MfaReply
  issue u jti now db =
      let profile = profile_of u.id db in
      accepted (generate_access_token st u profile (roles_of profile) none none now)
        (encode (generate_refresh_token st u none jti now))

  for_user : Option User → (jti : String) → Instant → Db → MfaReply × Db
  for_user none jti now db = (server_error, db)
  for_user (some u) jti now db = (issue u jti now db, db)

  complete : MfaToken → TotpDevice → (jti : String) → Instant → Db → MfaReply × Db
  complete t device jti now db =
      let consumed = record db { mfa_tokens = put_token (consume now t).0 db.mfa_tokens } in
      let saved = save_device (record device { last_used_at = some now }) consumed in
      for_user (first (λ u. u.id == t.user_id) db.users) jti now saved

  with_device : MfaToken → Found TotpDevice → (code jti : String) → Instant → Db → MfaReply × Db
  with_device t missing code jti now db = (not_configured, db)
  with_device t many code jti now db = (server_error, db)
  with_device t (one device) code jti now db =
      let (checked, right) = verify_either d totp code now device in
      if right then complete t checked jti now db else (wrong_code, db)

  with_token : Found MfaToken → (code jti : String) → Instant → Db → MfaReply × Db
  with_token missing code jti now db = (invalid_token, db)
  with_token many code jti now db = (server_error, db)
  with_token (one t) code jti now db =
      if not (is_valid now t)
      then (token_expired, db)
      else with_device t (get_device t.user_id true db) code jti now db

  -- `post`, but for the counting of a failure.
  unfoldable pub verify : (mfa_token code jti : String) → Instant → Db → MfaReply × Db
  unfolding with_token with_device complete for_user issue
  verify mfa_token code jti now db =
      if mfa_token == "" || code == ""
      then (missing_input, db)
      else with_token (get_one (rows (λ t. t.token == mfa_token) db.mfa_tokens)) code jti now db

  -- The user id that the throttles find for a token.
  unfoldable pub user_of : Db → String → Option String
  user_of db token = elim (first (λ t. t.token == token) db.mfa_tokens) [
    | none ↦ none
    | some t ↦ some t.user_id
  ]

  module _ (c : Cache (List Instant)) where
    count_failure :
        MfaReply × Db → (Kind → Option String) → Instant → c.State → MfaReply × Db × c.State
    count_failure (wrong_code, db) names now s =
        (wrong_code, db, increment_mfa_failures c names now s)
    count_failure (reply, db) names now s = (reply, db, s)

    -- A request to the view: its throttles, the handler, and the counting of a wrong code.
    unfoldable pub handle :
        MfaThrottle.Request → (code jti : String) → Instant → Db → c.State → MfaReply × Db × c.State
    unfolding count_failure
    handle r code jti now db s =
        let names = ident (user_of db) r in
        if allow_all c names now s
        then count_failure (verify r.mfa_token code jti now db) names now s
        else (throttled, db, s)
