-- ===== src/MfaPolicy/Tests.antt =====
-- An administrator's request with a password only, and one with a code as well.
use django_boilerplate.Prelude.{
  ◌≡◌, ◌⊎◌, ◌↔◌, refl, String, List, true, false, none, some, [], ◌∷◌, after_prefix,
}
use django_boilerplate.MfaPolicy.{
  Settings, TokenClaims, Request, methods, text, answer, json, get_mfa_settings, data_of,
  data_without_user, data_of_claims, is_admin, check_mfa_required, middleware,
  extract_mfa_data_from_request,
}
use django_boilerplate.MfaPolicy.Enforced.{IsExempt, middleware_iff}

abbrev settings : Settings
settings = record {
  mfa_required = none;
  mfa_required_for_admin = none;
  mfa_required_endpoints = none;
  mfa_acr_values = none;
}

abbrev request : List String → Request
request amr = record {
  is_authenticated = true;
  user_mfa = none;
  token_claims = some record {
    acr = none;
    amr = some (methods amr);
    auth_time = none;
    realm_roles = some ("platform_admin" ∷ []);
    roles = none;
  };
  path = "/api/v1/users/";
}

abbrev claims : TokenClaims
claims = record {
  acr = some "urn:keycloak:acr:mfa";
  amr = some (text "otp");
  auth_time = some 7;
  realm_roles = none;
  roles = none;
}

abbrev with_password : Request
with_password = request ("pwd" ∷ [])

abbrev with_code : Request
with_code = request ("pwd" ∷ "otp" ∷ [])

abbrev path_of : Request → String
path_of r = r.path

password_run : middleware settings path_of with_password ≡ json "MFA Required" 403
unfolding middleware check_mfa_required data_of data_without_user data_of_claims is_admin
    get_mfa_settings after_prefix
password_run = refl

code_run : middleware settings path_of with_code ≡ answer "/api/v1/users/"
unfolding middleware check_mfa_required data_of data_without_user data_of_claims is_admin
    get_mfa_settings after_prefix
code_run = refl

middleware_iff_example : (middleware settings path_of with_password ≡ answer "/api/v1/users/") ↔ (
    (true ≡ false)
    ⊎ (((extract_mfa_data_from_request settings with_password).mfa_verified ≡ true)
        ⊎ IsExempt settings with_password))
middleware_iff_example = middleware_iff settings with_password path_of
