-- ===== src/Bearer.antt =====
-- api/auth.py and api/impersonation.py: who a request with a bearer token is taken for. What Authlib finds
-- in a token is an argument; a missing claim that is a list is empty.
pub mod Acting
pub mod Found
mod Tests
use django_boilerplate.Prelude.{
  ℕ, String, Bool, true, false, not, ◌&&◌, ◌||◌, Option, none, some, List, [], ◌∷◌, ◌++◌, ◌==◌, eqb,
  any, first, contains, int, lower_text, if◌then◌else◌,
}
use django_boilerplate.MfaPolicy.{
  UserMfa, TokenClaims, Amr, methods, get, get_mfa_settings, is_second_factor, attach_mfa_claims,
}
use django_boilerplate.MfaPolicy

pub data Audience : Type 0 where
  one : String → Audience
  many : List String → Audience

pub record Claims : Type 0 where
  pub sub : Option String
  pub email : Option String
  pub aud : Option Audience
  pub azp : Option Audience
  pub realm_access_roles : List String
  pub resource_roles : List (List String)
  pub realm_roles : List String
  pub client_roles : List String
  pub mfa : TokenClaims

pub record User : Type 0 where
  pub id : ℕ
  pub username : String
  pub email : String
  pub is_active : Bool
  pub email_verified : Option Bool

-- `ImpersonationLog`, less what is always empty at a start.
pub record Log : Type 0 where
  pub admin_id : String
  pub admin_email : Option String
  pub target_user_id : String
  pub target_user_email : String
  pub action : String
  pub endpoint : String
  pub method : String
  pub request_id : String

pub record Database : Type 0 where
  pub users : List User
  pub memberships : List (ℕ × String)
  pub logs : List Log

pub record Settings : Type 0 where
  pub impersonation_enabled : Bool
  pub keycloak_audience : String
  pub local_auth_enabled : Bool
  pub email_verification_required : Bool
  pub mfa : MfaPolicy.Settings

-- The words of the `Authorization` header, and the user that the impersonation header names.
pub record Request : Type 0 where
  pub words : List String
  pub impersonate : Option String
  pub path : String
  pub method : String
  pub request_id : String

pub record Impersonation : Type 0 where
  pub admin_id : String
  pub admin_email : Option String
  pub target_user_id : String

pub record Session : Type 0 where
  pub user : User
  pub mfa : Option UserMfa
  pub token : String
  pub claims : Claims
  pub impersonation : Option Impersonation

pub data Reason : Type 0 where
  no_credentials : Reason
  too_many_words : Reason
  invalid_token : Reason
  token_expired : Reason
  impersonation_disabled : Reason
  not_permitted : Reason
  unknown_target : Reason
  no_subject : Reason
  unknown_user : Reason
  disabled_user : Reason
  email_not_verified : Reason

pub data Reply : Type 0 where
  skip : Reply
  failed : Reason → Reply
  key_error : Reply
  authenticated : Session → Reply

abbrev pub all_roles : List (List String) → List String
all_roles [] = []
all_roles (rs ∷ more) = rs ++ all_roles more

abbrev pub or_old : List String → List String → List String
or_old [] old = old
or_old (r ∷ rs) old = r ∷ rs

-- `can_impersonate`
unfoldable pub can_impersonate : Settings → Claims → Bool
can_impersonate st c =
    if not (
      contains (get_mfa_settings st.mfa).mfa_acr_values (get c.mfa.acr "")
      || is_second_factor (get c.mfa.amr (methods [])))
    then false
    else contains
        (or_old c.realm_access_roles c.realm_roles
          ++ or_old (all_roles c.resource_roles) c.client_roles)
        "platform_admin"

abbrev pub by_username : Database → String → Option User
by_username db name = first (λ u. u.username == name) db.users

abbrev pub by_id : Database → ℕ → Option User
by_id db n = first (λ u. eqb u.id n) db.users

or_username : Option User → Database → String → Option User
or_username none db name = by_username db name
or_username (some u) db name = some u

by_number : Option ℕ → Database → String → Option User
by_number none db target = by_username db target
by_number (some n) db target = or_username (by_id db n) db target

abbrev pub is_member : Database → User → String → Bool
is_member db u org = any (λ m. eqb m.0 u.id && m.1 == org) db.memberships

in_org : Database → Option String → Option User → Option User
in_org db org none = none
in_org db none (some u) = some u
in_org db (some org) (some u) = if org == "" || is_member db u org then some u else none

-- `get_impersonated_user`; `is_uuid` says whether `UUID` takes a text. A key of a user is a number, so a
-- text that is none is looked up as a username.
unfoldable pub get_impersonated_user :
    (is_uuid : String → Bool) → Database → (target : String) → Option String → Option User
unfolding in_org by_number or_username
get_impersonated_user is_uuid db target org =
    in_org db org
      (if is_uuid target then by_number (int target) db target else by_username db target)

abbrev pub audience_ok : String → Option Audience → Bool
audience_ok wanted none = false
audience_ok wanted (some (one a)) = a == wanted
audience_ok wanted (some (many names)) = contains names wanted

-- `claims.get("aud") or claims.get("azp")`
abbrev pub aud_or_azp : Option Audience → Option Audience → Option Audience
aud_or_azp none azp = azp
aud_or_azp (some (one a)) azp = if a == "" then azp else some (one a)
aud_or_azp (some (many [])) azp = azp
aud_or_azp (some (many (a ∷ names))) azp = some (many (a ∷ names))

-- What `verify_token` of api/local_jwt.py returns or raises.
pub data Verified : Type 0 where
  claims : Claims → Verified
  expired : Verified
  invalid : Verified

abbrev pub is_unverified : Option Bool → Bool
is_unverified none = false
is_unverified (some v) = not v

module _ (st : Settings) (is_uuid : String → Bool) (decode : String → Option Claims) where
  checked_audience : Option Claims → Option Claims
  checked_audience none = none
  checked_audience (some c) =
      if audience_ok st.keycloak_audience (aud_or_azp c.aud c.azp) then some c else none

  -- `_validate_token`; `decode` checks the signature, the issuer and the times.
  unfoldable pub validate_token : String → Option Claims
  unfolding checked_audience
  validate_token token = checked_audience (decode token)

  abbrev pub start_log : Request → (admin_id target : String) → Claims → User → Log
  start_log r admin_id target c u = record {
    admin_id = admin_id;
    admin_email = c.email;
    target_user_id = target;
    target_user_email = u.email;
    action = "start";
    endpoint = r.path;
    method = r.method;
    request_id = r.request_id;
  }

  log_and_act :
      Option String
      → Request
      → String
      → (target : String) → Claims
      → User
      → Database
      → Reply × Database
  log_and_act none r token target c u db = (key_error, db)
  log_and_act (some sub) r token target c u db = (
    authenticated record {
      user = u;
      mfa = some (attach_mfa_claims st.mfa c.mfa);
      token = token;
      claims = c;
      impersonation =
          some record { admin_id = sub; admin_email = c.email; target_user_id = target };
    },
    record db { logs = db.logs ++ start_log r sub target c u ∷ [] },
  )

  act_as : Option User → Request → String → (target : String) → Claims → Database → Reply × Database
  act_as none r token target c db = (failed unknown_target, db)
  act_as (some u) r token target c db = log_and_act c.sub r token target c u db

  impersonate : Request → String → (target : String) → Claims → Database → Reply × Database
  impersonate r token target c db =
      if not st.impersonation_enabled
      then (failed impersonation_disabled, db)
      else if not (can_impersonate st c)
      then (failed not_permitted, db)
      else act_as (get_impersonated_user is_uuid db target none) r token target c db

  unfoldable pub session_of : User → String → Claims → Reply
  session_of u token c = authenticated record {
    user = u;
    mfa = some (attach_mfa_claims st.mfa c.mfa);
    token = token;
    claims = c;
    impersonation = none;
  }

  abbrev pub new_user : (id : ℕ) → (sub : String) → Claims → User
  new_user id sub c = record {
    id = id;
    username = sub;
    email = get c.email "";
    is_active = true;
    email_verified = none;
  }

  get_or_create :
      Option User → (id : ℕ) → (sub : String) → String → Claims → Database → Reply × Database
  get_or_create (some u) id sub token c db = (session_of u token c, db)
  get_or_create none id sub token c db = (
    session_of (new_user id sub c) token c,
    record db { users = db.users ++ new_user id sub c ∷ [] },
  )

  as_subject : Option String → (id : ℕ) → String → Claims → Database → Reply × Database
  as_subject none id token c db = (key_error, db)
  as_subject (some sub) id token c db = get_or_create (by_username db sub) id sub token c db

  with_target : Option String → Request → (id : ℕ) → String → Claims → Database → Reply × Database
  with_target none r id token c db = as_subject c.sub id token c db
  with_target (some target) r id token c db =
      if target == "" then as_subject c.sub id token c db else impersonate r token target c db

  with_claims : Option Claims → Request → (id : ℕ) → String → Database → Reply × Database
  with_claims none r id token db = (failed invalid_token, db)
  with_claims (some c) r id token db = with_target r.impersonate r id token c db

  keycloak_token : Request → (id : ℕ) → String → Database → Reply × Database
  keycloak_token r id token db = with_claims (validate_token token) r id token db

  one_word : List String → (String → Database → Reply × Database) → Database → Reply × Database
  one_word [] k db = (failed no_credentials, db)
  one_word (token ∷ []) k db = k token db
  one_word (token ∷ t ∷ more) k db = (failed too_many_words, db)

  -- The header's scheme, and one word more.
  bearer : List String → (String → Database → Reply × Database) → Database → Reply × Database
  bearer [] k db = (skip, db)
  bearer (s ∷ words) k db =
      if not (lower_text s == "bearer") then (skip, db) else one_word words k db

  -- `KeycloakJWTAuthentication.authenticate`; `id` is the key that a new user would have.
  unfoldable pub authenticate_keycloak : Request → (id : ℕ) → Database → Reply × Database
  unfolding bearer one_word keycloak_token with_claims with_target as_subject get_or_create
      session_of impersonate act_as log_and_act
  authenticate_keycloak r id db = bearer r.words (keycloak_token r id) db

  module _ (is_local_token : String → Bool) (verify_token : String → Verified) where
    -- A local token has no second factor.
    local_mfa : Claims → UserMfa
    local_mfa c = record {
      mfa_verified = false;
      mfa_level = none;
      auth_methods = some ("pwd" ∷ []);
      auth_time = c.mfa.auth_time;
    }

    as_local : Option User → String → Claims → Reply
    as_local none token c = failed unknown_user
    as_local (some u) token c =
        if not u.is_active
        then failed disabled_user
        else if st.email_verification_required && is_unverified u.email_verified
        then failed email_not_verified
        else authenticated record {
          user = u;
          mfa = some (local_mfa c);
          token = token;
          claims = c;
          impersonation = none;
        }

    -- The user with a key; a text that is no number is looked up as a username.
    abbrev pub subject_of : Option ℕ → String → Database → Option User
    subject_of none name db = by_username db name
    subject_of (some n) name db = by_id db n

    with_subject : Option String → String → Claims → Database → Reply
    with_subject none token c db = failed no_subject
    with_subject (some sub) token c db =
        if sub == "" then failed no_subject else as_local (subject_of (int sub) sub db) token c

    -- `_authenticate_local`
    unfoldable pub authenticate_local : Verified → String → Database → Reply
    unfolding with_subject as_local local_mfa
    authenticate_local expired token db = failed token_expired
    authenticate_local invalid token db = failed invalid_token
    authenticate_local (claims c) token db = with_subject c.sub token c db

    hybrid_token : Request → (id : ℕ) → String → Database → Reply × Database
    hybrid_token r id token db =
        if st.local_auth_enabled && is_local_token token
        then (authenticate_local (verify_token token) token db, db)
        else authenticate_keycloak r id db

    -- `HybridJWTAuthentication.authenticate`
    unfoldable pub authenticate : Request → (id : ℕ) → Database → Reply × Database
    unfolding bearer one_word hybrid_token
    authenticate r id db = bearer r.words (hybrid_token r id) db
