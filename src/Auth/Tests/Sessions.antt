-- ===== src/Auth/Tests/Sessions.antt =====
-- Logouts and a password change of the example accounts.
use django_boilerplate.Prelude.{
  ◌≡◌, ◌≢◌, ◌≤◌, refl, String, true, none, some, eq_iff, arith, rows, if◌then◌else◌,
}
use django_boilerplate.Crypto.Toy.{toy}
use django_boilerplate.Auth.{LocalUserProfile, one, get_one, profile_of}
use django_boilerplate.Auth.Tokens.{validate_token, is_valid_row, is_null}
use django_boilerplate.Auth.Profile.{check_password}
use django_boilerplate.Auth.Session.{logout, change_password, changed, wrong_password}
use django_boilerplate.Auth.Session.Validity.{valid_of_others, logout_everywhere, password_change}
use django_boilerplate.Auth.Tests.Accounts.{plain, ann_profile, stored, accounts}

logout_everywhere_example :
    validate_token toy "b" 60 (logout toy "1" none 50 accounts).refresh_tokens
    ≡ get_one (rows (valid_of_others toy "1" "b" 60) accounts.refresh_tokens)
logout_everywhere_example = logout_everywhere toy "1" "b" 50 60 accounts

a_named : ◌≢◌ {A = String} "a" ""
a_named = ground (arith, eq_iff "a" "")

in_order : ◌≤◌ 50 60
in_order = omega arith

a_valid : validate_token toy "a" 50 accounts.refresh_tokens ≡ one (stored "10" "1" "a#")
unfolding validate_token is_valid_row is_null
a_valid = refl

password_change_example :
    let after = change_password plain "1" "tea" "rum" "salt" 50 accounts in
    if check_password plain "tea" ann_profile
    then (after.0 ≡ changed)
      × ((q : LocalUserProfile) × (profile_of "1" after.1 ≡ some q)
          × (check_password plain "rum" q ≡ true))
      × (validate_token toy "a" 60 after.1.refresh_tokens
          ≡ get_one (rows (valid_of_others toy "1" "a" 60) accounts.refresh_tokens))
    else after ≡ (wrong_password, accounts)
password_change_example =
    password_change toy plain "1" "tea" "rum" "salt" "a" ann_profile 50 60 accounts refl
