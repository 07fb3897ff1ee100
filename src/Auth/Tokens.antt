-- ===== src/Auth/Tokens.antt =====
-- `RefreshToken` and `MFAToken`, and the claims of the tokens that api/local_jwt.py issues.
use django_boilerplate.Prelude.{
  ℕ, ◌+◌, ◌/◌, String, Bool, true, false, not, ◌&&◌, ◌||◌, Option, none, some, List, [], ◌∷◌, ◌==◌,
  ltb, rows, if◌then◌else◌, Instant, seconds, take_text,
}
use django_boilerplate.Crypto.{Digests}
use django_boilerplate.Auth.{
  User, LocalUserProfile, RefreshToken, MfaToken, Settings, Found, get_one,
}

unfoldable pub is_null : Option Instant → Bool
is_null none = true
is_null (some t) = false

module _ (d : Digests) where
  -- `objects.get(token_hash=..., revoked_at__isnull=True, expires_at__gt=now)`
  unfoldable pub is_valid_row : String → Instant → RefreshToken → Bool
  unfolding is_null
  is_valid_row token now r =
      r.token_hash == d.sha256 token && is_null r.revoked_at && ltb now r.expires_at

  unfoldable pub validate_token : String → Instant → List RefreshToken → Found RefreshToken
  unfolding is_valid_row
  validate_token token now tokens = get_one (rows (is_valid_row token now) tokens)

  -- `create_for_user`; the id and the family are drawn.
  unfoldable pub create_for_user :
      Settings
      → (user_id token user_agent : String) (ip : Option String) (id family_id : String) → Instant
      → RefreshToken
  create_for_user st user_id token user_agent ip id family_id now = record {
    id = id;
    user_id = user_id;
    token_hash = d.sha256 token;
    expires_at = now + seconds st.refresh_token_ttl;
    revoked_at = none;
    user_agent = take_text 255 user_agent;
    ip_address = ip;
    family_id = family_id;
    generation = 0;
    replaced_by = none;
  }

-- `revoke`, saved over the row with the token's id.
unfoldable pub revoke : String → Instant → List RefreshToken → List RefreshToken
revoke id now [] = []
revoke id now (r ∷ rs) =
    (if r.id == id then record r { revoked_at = some now } else r) ∷ revoke id now rs

unfoldable pub revoke_row : String → Instant → RefreshToken → RefreshToken
unfolding is_null
revoke_row user_id now r =
    if r.user_id == user_id && is_null r.revoked_at then record r { revoked_at = some now } else r

unfoldable pub revoke_all_for_user : String → Instant → List RefreshToken → List RefreshToken
unfolding revoke_row
revoke_all_for_user user_id now [] = []
revoke_all_for_user user_id now (r ∷ rs) =
    revoke_row user_id now r ∷ revoke_all_for_user user_id now rs

-- The rows that `cleanup_expired` leaves.
unfoldable pub cleanup_expired : Instant → List RefreshToken → List RefreshToken
unfolding is_null
cleanup_expired now tokens =
    rows (λ r. not (ltb r.expires_at now || not (is_null r.revoked_at))) tokens

-- `MFAToken.create_token`, with the token that it draws; 300 seconds is its default.
unfoldable pub create_mfa_token : (user_id token : String) → Instant → MfaToken
create_mfa_token user_id token now = record {
  user_id = user_id;
  token = token;
  expires_at = now + seconds 300;
  used = false;
}

unfoldable pub is_valid : Instant → MfaToken → Bool
is_valid now t = not t.used && ltb now t.expires_at

-- `consume`: the token, and whether it was valid.
unfoldable pub consume : Instant → MfaToken → MfaToken × Bool
unfolding is_valid
consume now t = if is_valid now t then (record t { used = true }, true) else (t, false)

-- The claims of an access token, as far as the code reads them; times in whole seconds.
pub record Claims : Type 0 where
  pub iss : String
  pub sub : String
  pub aud : String
  pub exp : ℕ
  pub iat : ℕ
  pub nbf : ℕ
  pub auth_time : ℕ
  pub email : String
  pub email_verified : Bool
  pub preferred_username : String
  pub realm_roles : List String
  pub org_id : Option String
  pub token_type : String

verified_of : Option LocalUserProfile → Bool
verified_of none = false
verified_of (some p) = p.email_verified

given_org : Option String → Option String
given_org none = none
given_org (some org) = if org == "" then none else some org

unfoldable pub generate_access_token :
    Settings
    → User
    → Option LocalUserProfile
    → List String
    → Option String
    → Option ℕ
    → Instant
    → Claims
unfolding verified_of given_org
generate_access_token st u profile roles org_id ttl now =
    let at = now / 1000000 in
    let lifetime : ℕ = elim ttl [ none ↦ st.access_token_ttl | some t ↦ t ] in
    record {
      iss = st.issuer;
      sub = u.id;
      aud = st.audience;
      exp = at + lifetime;
      iat = at;
      nbf = at;
      auth_time = at;
      email = u.email;
      email_verified = verified_of profile;
      preferred_username = u.username;
      realm_roles = roles;
      org_id = given_org org_id;
      token_type = "local";
    }
