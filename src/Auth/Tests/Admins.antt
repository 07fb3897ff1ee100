-- ===== src/Auth/Tests/Admins.antt =====
-- An administrator creates an account, and deactivates another.
use django_boilerplate.Prelude.{
  rows, ◌≡◌, ◌≢◌, refl, String, Bool, true, inr, none, some, [], ◌∷◌, lower_text,
}
use django_boilerplate.Crypto.Toy.{toy}
use django_boilerplate.Permissions.{TokenClaims, extract_roles_from_claims, is_platform_admin}
use django_boilerplate.Auth.{false, User, one, get_one, has_email}
use django_boilerplate.Auth.Profile.{check_password, is_locked}
use django_boilerplate.Auth.Login as Login
use django_boilerplate.Auth.Login.{login, has_mfa_enabled}
use django_boilerplate.Auth.Login.Guards.{issues_tokens, login_cleared}
use django_boilerplate.Auth.Admin.{
  CreateInput, Draws, created, deactivated, is_strong, create_user, deactivate_user,
}
use django_boilerplate.Auth.Admin.Accounts.{by_password, created_logs_in, deactivated_out}
use django_boilerplate.Auth.Tests.Accounts.{plain, settings, ann, ann_profile, accounts}

abbrev root : TokenClaims
root = record {
  sub = some "root";
  realm_access_roles = "platform_admin" ∷ [];
  realm_roles = [];
  client_roles = [];
  roles = [];
  org_id = none;
}

abbrev accept_all : String → Bool
accept_all email = true

abbrev eve : CreateInput
eve = record { email = "eve@x"; password = "Cocoa4two"; roles = "user" ∷ [] }

abbrev draws : Draws
draws = record { user_id = "3"; salt = "salt" }

abbrev login_draws : Login.Draws
login_draws = record { refresh_token = "t2"; refresh_id = "21"; family_id = "21"; mfa_token = "m3" }

eve_created : (create_user plain accept_all true root eve draws accounts).0 ≡ created "3"
unfolding create_user is_platform_admin extract_roles_from_claims is_strong lower_text
eve_created = refl

eve_lower : lower_text "eve@x" ≡ "eve@x"
unfolding lower_text
eve_lower = refl

no_device : has_mfa_enabled "3" accounts ≡ false
unfolding has_mfa_enabled
no_device = refl

created_logs_in_example :
    issues_tokens
      (login toy plain settings
        (by_password plain accept_all true root eve draws accounts none "curl")
        login_draws
        50
        (create_user plain accept_all true root eve draws accounts).1).0
    ≡ true
created_logs_in_example =
    created_logs_in plain accept_all true root eve draws accounts "3" toy settings none "curl"
      login_draws 50 eve_created refl eve_lower refl no_device

bob_off : (deactivate_user true root "2" accounts).0 ≡ deactivated "2"
unfolding deactivate_user is_platform_admin extract_roles_from_claims
bob_off = refl

abbrev ann_input : Login.Input
ann_input = record { email = "ANN@x"; password = "tea"; ip = none; user_agent = "curl" }

ann_in :
    issues_tokens
      (login toy plain settings ann_input login_draws 50
        (deactivate_user true root "2" accounts).1).0
    ≡ true
unfolding deactivate_user is_platform_admin extract_roles_from_claims is_locked check_password
    has_mfa_enabled
ann_in =
    (login_cleared toy plain settings ann_input login_draws 50
        (deactivate_user true root "2" accounts).1).1
      (
        refl,
        (
          ann,
          ann_profile,
          refl,
          refl,
          record {
            unlocked = refl;
            right_password = refl;
            active = refl;
            verified = inr refl;
            no_second_factor = refl;
          },
        ),
      )

deactivated_out_example :
    (u : User) × (get_one
        (rows (has_email "ANN@x") (deactivate_user true root "2" accounts).1.users)
      ≡ one u)
    × (u.id ≢ "2")
deactivated_out_example =
    deactivated_out toy plain settings true root "2" accounts "2" ann_input login_draws 50 bob_off
      ann_in
