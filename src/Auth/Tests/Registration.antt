-- ===== src/Auth/Tests/Registration.antt =====
-- A third account is registered.
use django_boilerplate.Prelude.{
  ◌≡◌, ◌≢◌, refl, String, Bool, true, List, [], ◌∷◌, arith, eq_iff, All, lower_text, Instant,
}
use django_boilerplate.Crypto.Toy.{toy}
use django_boilerplate.Auth.Login as Login
use django_boilerplate.Auth.Login.{login, unverified}
use django_boilerplate.Auth.Register.{registered, Input, Draws, register}
use django_boilerplate.Auth.Tests.Accounts.{plain, settings, accounts}

abbrev input : Input
input = record { email = "Eve@x"; password = "cocoa"; password_confirm = "cocoa" }

abbrev draws : Draws
draws = record { user_id = "3"; salt = "salt"; token = "v1" }

abbrev login_draws : Login.Draws
login_draws = record { refresh_token = "t2"; refresh_id = "21"; family_id = "21"; mfa_token = "m3" }

abbrev accept_all : String → Bool
accept_all password = true

eve_registered :
    (register toy plain settings accept_all input draws 50 accounts).0 ≡ registered "eve@x"
unfolding register lower_text
eve_registered = refl

abbrev tries : List (String × Instant)
tries = ("v1", 60) ∷ ("v2", 70) ∷ []

tries_differ : All (λ t. toy.sha256 t.0 ≢ t.0) tries
tries_differ = (ground (arith, eq_iff "v1#" "v1"), (ground (arith, eq_iff "v2#" "v2"), tt))
