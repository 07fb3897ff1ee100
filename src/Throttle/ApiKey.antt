-- ===== src/Throttle/ApiKey.antt =====
-- api/throttling_api_keys.py: the rate of API key creation, and the quota of keys.
pub mod Rate
use mathlib.Core.Bool.{Bool, true, false}
use django_boilerplate.Prelude.{
  ℕ, ◌+◌, ◌-◌, ◌≡◌, refl, String, ◌+++◌, Option, none, some, List, [], ◌∷◌, arith, ◌==◌, leb,
  length, if◌then◌else◌, split, int, lower, codes_eq, Instant, seconds,
}
use django_boilerplate.Cache.{Cache}
use django_boilerplate.Throttle.Window.{admit}

-- A request is let through, refused, or the setting is no rate and `parse_rate` raises.
pub data Verdict : Type 0 where
  allowed throttled value_error : Verdict

-- `duration_map.get(period.lower(), 3600)`
duration_of : List ℕ → ℕ
duration_of p =
    if codes_eq p (lower "s")
    then 1
    else if codes_eq p (lower "sec")
    then 1
    else if codes_eq p (lower "second")
    then 1
    else if codes_eq p (lower "m")
    then 60
    else if codes_eq p (lower "min")
    then 60
    else if codes_eq p (lower "minute")
    then 60
    else if codes_eq p (lower "h")
    then 3600
    else if codes_eq p (lower "hour")
    then 3600
    else if codes_eq p (lower "d")
    then 86400
    else if codes_eq p (lower "day")
    then 86400
    else 3600

with_period : Option ℕ → String → Option (ℕ × ℕ)
with_period none period = none
with_period (some num) period = some (num, duration_of (lower period))

-- `num, period = rate.split("/")` asks for exactly two parts.
rate_of_parts : List String → Option (ℕ × ℕ)
rate_of_parts (num ∷ period ∷ []) = with_period (int num) period
rate_of_parts _ = none

unfoldable pub parse_rate : String → Option (ℕ × ℕ)
unfolding rate_of_parts with_period duration_of split int
parse_rate rate = rate_of_parts (split b'/' rate)

abbrev pub cache_key : String → String
cache_key user_id = "throttle:apikey:create:user:" +++ user_id

module _ (c : Cache (List Instant)) where
  limited : Option (ℕ × ℕ) → String → Instant → c.State → Verdict × c.State
  limited none key now s = (value_error, s)
  limited (some (num_requests, duration)) key now s =
      let (ok, s') = admit c key num_requests (seconds duration) now s in
      (if ok then allowed else throttled, s')

  with_rate : Option String → String → Instant → c.State → Verdict × c.State
  with_rate none key now s = (allowed, s)
  with_rate (some rate) key now s = limited (parse_rate rate) key now s

  -- `user` is the id of `request.user`, if it is authenticated; `rate` is what `get_rate` returns.
  unfoldable pub allow_request :
      (rate : Option String) (user : Option String) (now : Instant) → c.State → Verdict × c.State
  unfolding limited with_rate
  allow_request rate none now s = (allowed, s)
  allow_request rate (some user_id) now s = with_rate rate (cache_key user_id) now s

last? : List Instant → Option Instant
last? [] = none
last? (t ∷ []) = some t
last? (t ∷ u ∷ h) = last? (u ∷ h)

-- `wait`, on the history that `allow_request` has left; `-` stops at 0, as `max(0, …)` does.
unfoldable pub wait : ℕ → Instant → List Instant → Option ℕ
unfolding last?
wait duration now history = elim (last? history) [
  | none ↦ none
  | some oldest ↦ some (oldest + duration - now)
]

parse_rate_tests :
    (parse_rate "5/hour" ≡ some (5, 3600))
    × (parse_rate "10/DAY" ≡ some (10, 86400))
    × (parse_rate "12/fortnight" ≡ some (12, 3600))
    × (parse_rate "5" ≡ none)
    × (parse_rate "x/hour" ≡ none)
unfolding parse_rate
parse_rate_tests = (refl, refl, refl, refl, refl)
