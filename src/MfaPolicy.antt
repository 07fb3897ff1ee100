-- ===== src/MfaPolicy.antt =====
-- api/mfa.py, and `_attach_mfa_claims` of api/auth.py: which requests with a bearer token need a second factor. A request has a user, the
-- anonymous one included; the messages are not translated.
pub mod Enforced
mod Tests
use django_boilerplate.Prelude.{
  starts_with, ℕ, String, Bool, true, false, not, ◌&&◌, ◌||◌, Option, none, some, List, [], ◌∷◌,
  any, contains, after_prefix, ◌==◌, if◌then◌else◌,
}

-- `settings`: none where the name is not defined.
pub record Settings : Type 0 where
  pub mfa_required : Option Bool
  pub mfa_required_for_admin : Option Bool
  pub mfa_required_endpoints : Option (List String)
  pub mfa_acr_values : Option (List String)

pub record MfaSettings : Type 0 where
  pub mfa_required : Bool
  pub mfa_required_for_admin : Bool
  pub mfa_required_endpoints : List String
  pub mfa_acr_values : List String

pub record MfaData : Type 0 where
  pub mfa_verified : Bool
  pub mfa_level : Option String
  pub auth_methods : List String
  pub auth_time : Option ℕ

-- The claim `amr`: a list of methods, or a text.
pub data Amr : Type 0 where
  methods : List String → Amr
  text : String → Amr

-- A token's claims that are read, none where one is missing.
pub record TokenClaims : Type 0 where
  pub acr : Option String
  pub amr : Option Amr
  pub auth_time : Option ℕ
  pub realm_roles : Option (List String)
  pub roles : Option (List String)

-- The attributes that authentication sets on a user; the user has `mfa_verified`.
pub record UserMfa : Type 0 where
  pub mfa_verified : Bool
  pub mfa_level : Option String
  pub auth_methods : Option (List String)
  pub auth_time : Option ℕ

-- `token_claims` is none where the request has none or an empty dictionary.
pub record Request : Type 0 where
  pub is_authenticated : Bool
  pub user_mfa : Option UserMfa
  pub token_claims : Option TokenClaims
  pub path : String

abbrev pub get {ℓ} : {A : Type ℓ} → Option A → A → A
get none default = default
get (some x) default = x

-- `_get_mfa_settings`
unfoldable pub get_mfa_settings : Settings → MfaSettings
get_mfa_settings st = record {
  mfa_required = get st.mfa_required false;
  mfa_required_for_admin = get st.mfa_required_for_admin true;
  mfa_required_endpoints = get st.mfa_required_endpoints ("/api/v1/admin/" ∷ "/api/v1/audit/" ∷ []);
  mfa_acr_values = get st.mfa_acr_values ("urn:keycloak:acr:mfa" ∷ "urn:keycloak:acr:2fa" ∷ []);
}

abbrev pub second_factors : List String
second_factors = "otp" ∷ "mfa" ∷ "totp" ∷ []

-- `any(method in [...] for method in amr)`: the characters of a text are no methods.
abbrev pub is_second_factor : Amr → Bool
is_second_factor (methods ms) = any (contains second_factors) ms
is_second_factor (text t) = false

abbrev pub methods_of : Amr → List String
methods_of (methods ms) = ms
methods_of (text t) = []

abbrev pub unless_empty : String → Option String
unless_empty s = if s == "" then none else some s

unfoldable pub data_of_claims : Settings → TokenClaims → MfaData
data_of_claims st c =
    let acr = get c.acr "" in
    let amr = get c.amr (methods []) in
    record {
      mfa_verified = contains (get_mfa_settings st).mfa_acr_values acr || is_second_factor amr;
      mfa_level = unless_empty acr;
      auth_methods = methods_of amr;
      auth_time = c.auth_time;
    }

-- `_attach_mfa_claims` of api/auth.py: the attributes that a bearer token's authentication sets.
unfoldable pub attach_mfa_claims : Settings → TokenClaims → UserMfa
attach_mfa_claims st c =
    let acr = get c.acr "" in
    let auth_methods = methods_of (get c.amr (methods [])) in
    record {
      mfa_verified =
          contains (get_mfa_settings st).mfa_acr_values acr
          || any (contains second_factors) auth_methods;
      mfa_level = unless_empty acr;
      auth_methods = some auth_methods;
      auth_time = c.auth_time;
    }

unfoldable pub data_without_user : Settings → Option TokenClaims → MfaData
data_without_user st none = record {
  mfa_verified = false;
  mfa_level = none;
  auth_methods = [];
  auth_time = none;
}
data_without_user st (some c) = data_of_claims st c

unfoldable pub data_of : Settings → Option UserMfa → Option TokenClaims → MfaData
data_of st (some u) c = record {
  mfa_verified = u.mfa_verified;
  mfa_level = u.mfa_level;
  auth_methods = get u.auth_methods [];
  auth_time = u.auth_time;
}
data_of st none c = data_without_user st c

-- `_extract_mfa_data_from_request`
abbrev pub extract_mfa_data_from_request : Settings → Request → MfaData
extract_mfa_data_from_request st r = data_of st r.user_mfa r.token_claims

-- `_is_endpoint_mfa_required`
abbrev pub is_endpoint_mfa_required : Settings → String → Bool
is_endpoint_mfa_required st path =
    any (starts_with path) (get_mfa_settings st).mfa_required_endpoints

unfoldable pub is_admin : Option TokenClaims → Bool
is_admin none = false
is_admin (some c) =
    if contains (get c.realm_roles []) "platform_admin"
    then true
    else contains (get c.roles []) "org_admin"

-- `_is_user_admin`
abbrev pub is_user_admin : Request → Bool
is_user_admin r = is_admin r.token_claims

-- `check_mfa_required`; none stands for the exception.
unfoldable pub check_mfa_required : Settings → Request → (raise_exception : Bool) → Option Bool
check_mfa_required st r raise_exception =
    let s = get_mfa_settings st in
    let required0 = if s.mfa_required then true else false in
    let required1 = if s.mfa_required_for_admin && is_user_admin r then true else required0 in
    let required2 = if is_endpoint_mfa_required st r.path then true else required1 in
    if required2 && not (extract_mfa_data_from_request st r).mfa_verified
    then (if raise_exception then none else some false)
    else some true

pub record MfaStatus : Type 0 where
  pub mfa : MfaData
  pub mfa_required : Bool

-- `get_mfa_status`
unfoldable pub get_mfa_status : Settings → Request → MfaStatus
get_mfa_status st r =
    let s = get_mfa_settings st in
    record {
      mfa = extract_mfa_data_from_request st r;
      mfa_required =
          if s.mfa_required
          then true
          else if s.mfa_required_for_admin && is_user_admin r
          then true
          else if is_endpoint_mfa_required st r.path
          then true
          else false;
    }

pub data Response {ℓ} (A : Type ℓ) : Type ℓ where
  answer : A → Response A
  json : (error : String) → (status : ℕ) → Response A

unless_raised {ℓ} : {A : Type ℓ} → Option Bool → (Request → A) → Request → Response A
unless_raised none get_response r = json "MFA Required" 403
unless_raised (some b) get_response r = answer (get_response r)

-- `MFAMiddleware.__call__`
unfoldable pub middleware {ℓ} : {A : Type ℓ} → Settings → (Request → A) → Request → Response A
unfolding unless_raised
middleware st get_response r =
    if not r.is_authenticated
    then answer (get_response r)
    else unless_raised (check_mfa_required st r true) get_response r

-- The view under `require_mfa`; none stands for the exception.
unfoldable pub require_mfa {ℓ} : {A : Type ℓ} → Settings → (Request → A) → Request → Option A
require_mfa st view r =
    if not (extract_mfa_data_from_request st r).mfa_verified then none else some (view r)
