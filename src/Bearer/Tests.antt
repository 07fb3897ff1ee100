-- ===== src/Bearer/Tests.antt =====
-- An administrator who acts for a user, and an account that is deactivated.
use django_boilerplate.Prelude.{
  ◌≡◌, refl, String, Bool, true, false, none, some, Option, List, [], ◌∷◌, ◌==◌, lower_text,
  if◌then◌else◌,
}
use django_boilerplate.MfaPolicy.{methods, get_mfa_settings}
use django_boilerplate.Bearer.{
  one, Claims, User, Database, Settings, Request, Verified, invalid, can_impersonate,
  validate_token, authenticate_keycloak, authenticate, failed, not_permitted,
}
use django_boilerplate.Bearer.Acting.{IsTaken, authenticated-IsTaken}

abbrev settings : Settings
settings = record {
  impersonation_enabled = true;
  keycloak_audience = "api";
  local_auth_enabled = true;
  email_verification_required = true;
  mfa = record {
    mfa_required = none;
    mfa_required_for_admin = none;
    mfa_required_endpoints = none;
    mfa_acr_values = none;
  };
}

abbrev claims_with : List String → Claims
claims_with amr = record {
  sub = some "root";
  email = none;
  aud = some (one "api");
  azp = none;
  realm_access_roles = "platform_admin" ∷ [];
  resource_roles = [];
  realm_roles = [];
  client_roles = [];
  mfa = record {
    acr = none;
    amr = some (methods amr);
    auth_time = none;
    realm_roles = none;
    roles = none;
  };
}

abbrev user : String → Bool → User
user name active = record {
  id = 7;
  username = name;
  email = name;
  is_active = active;
  email_verified = none;
}

abbrev database : Database
database = record { users = user "root" false ∷ user "ann" true ∷ []; memberships = []; logs = [] }

abbrev request : Option String → Request
request target = record {
  words = "Bearer" ∷ "t" ∷ [];
  impersonate = target;
  path = "/";
  method = "GET";
  request_id = "";
}

abbrev no_uuid : String → Bool
no_uuid s = false

abbrev decode : String → Option Claims
decode t = if t == "t" then some (claims_with ("otp" ∷ [])) else none

abbrev decode_weak : String → Option Claims
decode_weak t = some (claims_with ("pwd" ∷ []))

abbrev not_local : String → Bool
not_local t = false

abbrev verify : String → Verified
verify t = invalid

-- Without a second factor, an administrator may not act for another.
refused_run :
    (authenticate settings no_uuid decode_weak not_local verify (request (some "ann")) 9 database).0
    ≡ failed not_permitted
unfolding authenticate authenticate_keycloak validate_token can_impersonate get_mfa_settings
    lower_text
refused_run = refl

authenticated-IsTaken_example :
    IsTaken settings no_uuid decode not_local verify
      (request (some "ann"))
      database
      (authenticate settings no_uuid decode not_local verify (request (some "ann")) 9 database)
authenticated-IsTaken_example =
    authenticated-IsTaken settings no_uuid decode not_local verify (request (some "ann")) database 9
