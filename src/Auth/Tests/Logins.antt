-- ===== src/Auth/Tests/Logins.antt =====
-- Logins of the example accounts.
use django_boilerplate.Prelude.{
  ◌≡◌, ◌↔◌, ◌≤◌, ◌<◌, ◌+◌, refl, true, inr, none, [], ◌∷◌, eq_iff, arith, seconds,
}
use django_boilerplate.Crypto.Toy.{toy}
use django_boilerplate.Throttle.Window.Bound.{in_window}
use django_boilerplate.Auth.{Db, RefreshToken}
use django_boilerplate.Auth.Tokens.{create_for_user}
use django_boilerplate.Auth.Profile.{check_password, is_locked, record_login_attempt}
use django_boilerplate.Auth.Profile.Lockout.{guesses_bounded, guess, guess_log, IsOrdered}
use django_boilerplate.Auth.Login.{Input, Draws, has_mfa_enabled, login}
use django_boilerplate.Auth.Login.Guards.{issues_tokens, IsCleared, ClearedUser, login_cleared}
use django_boilerplate.Auth.Login.Issued.{IsFresh, login-refresh}
use django_boilerplate.Auth.Session.{refresh, name_error}
use django_boilerplate.Auth.Tests.Accounts.{plain, settings, ann, ann_profile, accounts}

abbrev ann_input : Input
ann_input = record { email = "ANN@x"; password = "tea"; ip = none; user_agent = "curl" }

abbrev draws : Draws
draws = record { refresh_token = "t1"; refresh_id = "20"; family_id = "20"; mfa_token = "m2" }

login_cleared_example :
    issues_tokens (login toy plain settings ann_input draws 50 accounts).0 ≡ true ↔ (
      (settings.local_auth_enabled ≡ true)
      × ClearedUser toy plain settings ann_input draws 50 accounts)
login_cleared_example = login_cleared toy plain settings ann_input draws 50 accounts

ann-IsCleared : IsCleared plain settings ann_input 50 accounts ann ann_profile
unfolding is_locked check_password has_mfa_enabled
ann-IsCleared = record {
  unlocked = refl;
  right_password = refl;
  active = refl;
  verified = inr refl;
  no_second_factor = refl;
}

t1-IsFresh : IsFresh toy "t1" accounts.refresh_tokens
t1-IsFresh = (ground (arith, eq_iff "a#" "t1#"), (ground (arith, eq_iff "b#" "t1#"), tt))

abbrev after_login : Db
after_login = (login toy plain settings ann_input draws 50 accounts).1

abbrev row : RefreshToken
row = create_for_user toy settings "1" "t1" "curl" none "20" "20" 50

live : 60 < 50 + seconds 604800
live = omega arith

login-refresh_example : refresh toy "t1" 60 after_login ≡ (name_error, after_login)
login-refresh_example =
    login-refresh toy plain settings ann_input draws 50 60 accounts refl ann ann_profile refl refl
      ann-IsCleared t1-IsFresh refl live

limit_positive : 1 ≤ settings.max_failed_attempts
limit_positive = omega arith

times-IsOrdered : IsOrdered settings 0 (1 ∷ 2 ∷ 3 ∷ 4 ∷ [])
times-IsOrdered = (omega arith, (omega arith, (omega arith, (omega arith, tt))))

-- The fourth guess is not looked at.
guesses_run : guess_log settings (1 ∷ 2 ∷ 3 ∷ 4 ∷ []) ann_profile [] ≡ 3 ∷ 2 ∷ 1 ∷ []
unfolding guess_log guess is_locked record_login_attempt
guesses_run = refl

guesses_bounded_example :
    in_window (seconds 1800) 4 (guess_log settings (1 ∷ 2 ∷ 3 ∷ 4 ∷ []) ann_profile []) ≤ 3
guesses_bounded_example =
    guesses_bounded settings (1 ∷ 2 ∷ 3 ∷ 4 ∷ []) 0 ann_profile limit_positive refl times-IsOrdered
      4
