-- ===== src/Throttle/Tests.antt =====
-- The throttles on concrete requests.
use django_boilerplate.Prelude.{
  ℕ, ◌≤◌, ◌+◌, ◌≡◌, refl, String, Option, none, some, List, [], ◌∷◌, arith, Instant, seconds, false,
  eq_iff, pos, lookup,
}
use django_boilerplate.Cache.Table.{table, empty}
use django_boilerplate.Licensing.{Org, num}
use django_boilerplate.Licensing.Limits.{get_rate_limit, limit_of_feature, at_most}
use django_boilerplate.Throttle.Window.{admit, history}
use django_boilerplate.Throttle.Window.Bound.{in_window}
use django_boilerplate.Throttle.ApiKey.{parse_rate}
use django_boilerplate.Throttle.ApiKey
use django_boilerplate.Throttle.Org as OrgThrottle
use django_boilerplate.Throttle.Mfa
use django_boilerplate.Throttle.Mfa.{Kind, token, user, ip}
use django_boilerplate.Throttle.Mfa.Failures

abbrev ask : String → ℕ → ApiKey.Rate.Request
ask who t = record { user_id = who; at = seconds t }

abbrev burst : List ApiKey.Rate.Request
burst = ask "7" 10 ∷ ask "8" 10 ∷ ask "7" 11 ∷ ask "7" 12 ∷ ask "7" 70 ∷ []

-- Two of the first three requests of user 7 pass, and the one a minute later.
burst_log :
    ApiKey.Rate.allowed_log (table (List Instant)) "2/minute" "7" burst (empty (List Instant)) []
    ≡ seconds 70 ∷ seconds 11 ∷ seconds 10 ∷ []
unfolding ApiKey.Rate.allowed_log ApiKey.allow_request admit history parse_rate
burst_log = refl

minute_rate : parse_rate "2/minute" ≡ some (2, 60)
unfolding parse_rate
minute_rate = refl

rate_limit_example :
    in_window (seconds 60) (seconds 60) (
      ApiKey.Rate.allowed_log (table (List Instant)) "2/minute" "7" burst (empty (List Instant)) [])
    ≤ 2
rate_limit_example =
    ApiKey.Rate.rate_limit (table (List Instant)) "2/minute" 2 60 minute_rate "7" burst 0
      (empty (List Instant)) (omega arith) (λ later. refl) (seconds 60)

abbrev small : Org
small = record { license_tier = "free"; feature_flags = ("api_rate_limit", num (pos 1)) ∷ [] }

abbrev orgs : String → Option Org
orgs id = some small

abbrev call : ℕ → OrgThrottle.Rate.Call
call t = record {
  request = record { claimed_org = some "acme"; url_org = none; member_orgs = none };
  at = seconds t;
}

small_limit : limit_of_feature (get_rate_limit [] (orgs "acme")) ≡ at_most 1
unfolding limit_of_feature get_rate_limit lookup
small_limit = refl

org_calls_log :
    OrgThrottle.Rate.allowed_log
      (table (List Instant))
      []
      orgs
      "acme"
      (call 1 ∷ call 2 ∷ call 3601 ∷ [])
      (empty (List Instant))
      []
    ≡ seconds 3601 ∷ seconds 1 ∷ []
unfolding OrgThrottle.Rate.allowed_log OrgThrottle.allow_request OrgThrottle.get_org_id admit
    history limit_of_feature get_rate_limit lookup
org_calls_log = refl

org_rate_limit_example :
    in_window OrgThrottle.duration (seconds 9) (
      OrgThrottle.Rate.allowed_log
        (table (List Instant))
        []
        orgs
        "acme"
        (call 1 ∷ call 2 ∷ [])
        (empty (List Instant))
        [])
    ≤ 1
org_rate_limit_example =
    OrgThrottle.Rate.org_rate_limit (table (List Instant)) [] orgs "acme"
      (ground (arith, eq_iff "acme" "")) 1 small_limit (call 1 ∷ call 2 ∷ []) 0
      (empty (List Instant)) (omega arith) (λ later. refl) (seconds 9)

abbrev names : Kind → Option String
names token = some "t"
names user = some "7"
names ip = some "10.0.0.1"

abbrev wrong : ℕ → Failures.Attempt
wrong t = record { names = names; at = seconds t; valid = false; failed_at = seconds t + 1 }

abbrev guesses : List Failures.Attempt
guesses = wrong 1 ∷ wrong 2 ∷ wrong 3 ∷ wrong 4 ∷ wrong 5 ∷ wrong 6 ∷ wrong 902 ∷ []

-- The sixth guess is not looked at; one of a quarter of an hour later is.
guesses_log :
    Failures.failure_log (table (List Instant)) token "t" guesses (empty (List Instant)) []
    ≡ 902000001 ∷ 5000001 ∷ 4000001 ∷ 3000001 ∷ 2000001 ∷ 1000001 ∷ []
unfolding Failures.failure_log Failures.attempt Failures.failed Mfa.allow_all
    Mfa.increment_mfa_failures Mfa.increment admit history
guesses_log = refl

mfa_failure_limit_example :
    in_window
      (Mfa.duration token)
      (seconds 10)
      (Failures.failure_log (table (List Instant)) token "t" guesses (empty (List Instant)) [])
    ≤ 5
mfa_failure_limit_example =
    Failures.mfa_failure_limit (table (List Instant)) token "t" guesses 0 (empty (List Instant))
      (omega arith) (λ later. refl) (seconds 10)
