-- ===== src/Throttle/ApiKey/Rate.antt =====
-- The rate limit of API key creation over any sequence of requests by any users.
use text.Mathlib.TextLemmas.{append_cancel_left}
use django_boilerplate.Prelude.{
  ℕ, ◌≤◌, ◌≡◌, refl, inl, inr, Bool, true, false, Bool-cases, String, none, some, List, [], ◌∷◌,
  arith, ◌==◌, eq_iff, if◌then◌else◌, Instant, seconds,
}
use django_boilerplate.Cache.{Cache}
use django_boilerplate.Throttle.Window.{admit}
use django_boilerplate.Throttle.Window.Bound.{in_window}
use django_boilerplate.Throttle.Window.Admit.{
  Keeps, Keeps-fresh, Keeps-later, admit_self, admit_other,
}
use django_boilerplate.Throttle.ApiKey.{
  Verdict, allowed, throttled, value_error, parse_rate, cache_key, allow_request,
}

pub record Request : Type 0 where
  pub user_id : String
  pub at : Instant

-- The clock does not run backwards.
abbrev pub IsOrdered : Instant → List Request → Type 0
IsOrdered now [] = Unit
IsOrdered now (r ∷ rs) = (now ≤ r.at) × IsOrdered r.at rs

abbrev is_allowed : Verdict → Bool
is_allowed allowed = true
is_allowed throttled = false
is_allowed value_error = false

-- The log of a user's allowed requests, the newest first.
abbrev note : Bool → Bool → Instant → List Instant → List Instant
note mine ok now log = if mine then (if ok then now ∷ log else log) else log

module _ (c : Cache (List Instant)) (rate : String) where
  unfoldable pub allowed_log : String → List Request → c.State → List Instant → List Instant
  allowed_log user [] s log = log
  allowed_log user (r ∷ rs) s log =
      let (v, s') = allow_request c (some rate) (some r.user_id) r.at s in
      allowed_log user rs s' (note (r.user_id == user) (is_allowed v) r.at log)

cache_key_injective : (u v : String) → cache_key u ≡ cache_key v → u ≡ v
cache_key_injective u v e = append_cancel_left "throttle:apikey:create:user:" u v e

module _ (c : Cache (List Instant)) (rate : String) (num duration : ℕ)
    (parsed : parse_rate rate ≡ some (num, duration)) where
  allow_request-eq-admit :
      (user_id : String) (now : Instant) (s : c.State)
      → ((allow_request c (some rate) (some user_id) now s).1
          ≡ (admit c (cache_key user_id) num (seconds duration) now s).1)
        × (is_allowed (allow_request c (some rate) (some user_id) now s).0
            ≡ (admit c (cache_key user_id) num (seconds duration) now s).0)
  unfolding allow_request
  allow_request-eq-admit user_id now s = rw parsed (refl, ground arith)

  allow_request-Keeps :
      (user : String) (r : Request) (s : c.State) (log : List Instant)
      → Keeps c (cache_key user) num (seconds duration) r.at s log
      → Keeps c
          (cache_key user)
          num
          (seconds duration)
          r.at
          (allow_request c (some rate) (some r.user_id) r.at s).1
          (note
            (r.user_id == user)
            (is_allowed (allow_request c (some rate) (some r.user_id) r.at s).0)
            r.at
            log)
  allow_request-Keeps user r s log k =
      let (state, ok) = allow_request-eq-admit r.user_id r.at s in
      rw (state, ok)
        (elim (Bool-cases (r.user_id == user)) [
          | inl mine ↦ rw mine (
              rw ((eq_iff r.user_id user).0 mine)
                (admit_self c (cache_key user) num (seconds duration) r.at s log k))
          | inr theirs ↦ rw theirs (
              admit_other c (cache_key user) num (seconds duration) (cache_key r.user_id) num r.at s
                log (λ e. cc ((eq_iff r.user_id user).1 (cache_key_injective _ _ e))) k)
        ])

  allowed_log-bounded :
      (user : String) (rs : List Request) (now : Instant) (s : c.State) (log : List Instant)
      → IsOrdered now rs
      → Keeps c (cache_key user) num (seconds duration) now s log
      → (t : Instant) → in_window (seconds duration) t (allowed_log c rate user rs s log) ≤ num
  unfolding allowed_log
  allowed_log-bounded user [] now s log ordered k = k.bounded
  allowed_log-bounded user (r ∷ rs) now s log (le, ordered) k =
      allowed_log-bounded user rs r.at _ _ ordered (
        allow_request-Keeps user r s log
          (Keeps-later c (cache_key user) num (seconds duration) now r.at s log le k))

  -- Requests come in any number, from any users, in the order of the clock, to a cache that holds no
  -- history of a user; the rate setting is read as `num` per `duration` seconds. Then in every window
  -- of `duration` seconds at most `num` requests of that user are let through.
  pub rate_limit :
      (user : String) (rs : List Request) (start : Instant) (s : c.State)
      → IsOrdered start rs
      → ((later : Instant) → c.get (cache_key user) later s ≡ none)
      → (t : Instant) → in_window (seconds duration) t (allowed_log c rate user rs s []) ≤ num
  rate_limit user rs start s ordered fresh =
      allowed_log-bounded user rs start s [] ordered
        (Keeps-fresh c (cache_key user) num (seconds duration) start s fresh)
