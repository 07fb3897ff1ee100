-- ===== src/Throttle/Org/Rate.antt =====
-- The rate limit of an organisation over any sequence of requests.
use text.Mathlib.TextLemmas.{append_cancel_left}
use django_boilerplate.Prelude.{
  ℕ, ◌≤◌, ◌≡◌, ◌≢◌, inl, inr, Bool, true, false, Bool-cases, String, Option, none, some, List, [],
  ◌∷◌, ◌==◌, eq-false_of_ne, ne_of_eq-false, eq_of_eq-true, if◌then◌else◌, Instant,
}
use django_boilerplate.Cache.{Cache}
use django_boilerplate.Licensing.{Tiers, Org}
use django_boilerplate.Licensing.Limits.{
  Limit, unlimited, at_most, below_zero, no_number, limit_of_feature, get_rate_limit,
}
use django_boilerplate.Throttle.Window.{admit}
use django_boilerplate.Throttle.Window.Bound.{in_window}
use django_boilerplate.Throttle.Window.Admit.{
  Keeps, Keeps-fresh, Keeps-later, admit_self, admit_other,
}
use django_boilerplate.Throttle.Org.{
  Verdict, allowed, throttled, type_error, Request, get_org_id, duration, cache_key, limited,
  for_org, allow_request,
}

pub record Call : Type 0 where
  pub request : Request
  pub at : Instant

abbrev pub IsOrdered : Instant → List Call → Type 0
IsOrdered now [] = Unit
IsOrdered now (r ∷ rs) = (now ≤ r.at) × IsOrdered r.at rs

abbrev is_allowed : Verdict → Bool
is_allowed allowed = true
is_allowed throttled = false
is_allowed type_error = false

abbrev is_org : Option String → String → Bool
is_org none org = false
is_org (some id) org = id == org

abbrev note : Bool → Bool → Instant → List Instant → List Instant
note ours ok now log = if ours then (if ok then now ∷ log else log) else log

module _ (c : Cache (List Instant)) (tiers : Tiers) (orgs : String → Option Org)
    (org : String) where
  -- The calls of the organisation that were let through, the newest first.
  unfoldable pub allowed_log : List Call → c.State → List Instant → List Instant
  allowed_log [] s log = log
  allowed_log (r ∷ rs) s log =
      let (v, s') = allow_request c tiers orgs r.request r.at s in
      allowed_log rs s' (note (is_org (get_org_id r.request) org) (is_allowed v) r.at log)

module _ (c : Cache (List Instant)) (tiers : Tiers) (orgs : String → Option Org) (org : String)
    (named : org ≢ "") (limit : ℕ)
    (limits : limit_of_feature (get_rate_limit tiers (orgs org)) ≡ at_most limit) where
  limited_self :
      (now : Instant) (s : c.State) (log : List Instant)
      → Keeps c (cache_key org) limit duration now s log
      → Keeps c
          (cache_key org)
          limit
          duration
          now
          (limited c tiers orgs (at_most limit) (cache_key org) now s).1
          (if is_allowed (limited c tiers orgs (at_most limit) (cache_key org) now s).0
            then now ∷ log
            else log)
  unfolding limited
  limited_self now s log k = elim (Bool-cases (admit c (cache_key org) limit duration now s).0) [
    | inl ok ↦ rw ok (rw ok at (admit_self c (cache_key org) limit duration now s log k))
    | inr neg ↦ rw neg (rw neg at (admit_self c (cache_key org) limit duration now s log k))
  ]

  limited_other :
      (l : Limit) (id : String) (now : Instant) (s : c.State) (log : List Instant)
      → id ≢ org
      → Keeps c (cache_key org) limit duration now s log
      → Keeps c
          (cache_key org)
          limit
          duration
          now
          (limited c tiers orgs l (cache_key id) now s).1
          log
  unfolding limited
  limited_other unlimited id now s log ne k = k
  limited_other below_zero id now s log ne k = k
  limited_other no_number id now s log ne k = k
  limited_other (at_most n) id now s log ne k =
      admit_other c (cache_key org) limit duration (cache_key id) n now s log
        (λ e. ne (append_cancel_left "throttle:org:" id org e)) k

  for_org-Keeps :
      (found : Option String) (now : Instant) (s : c.State) (log : List Instant)
      → Keeps c (cache_key org) limit duration now s log
      → Keeps c
          (cache_key org)
          limit
          duration
          now
          (for_org c tiers orgs found now s).1
          (note (is_org found org) (is_allowed (for_org c tiers orgs found now s).0) now log)
  unfolding for_org
  for_org-Keeps none now s log k = k
  for_org-Keeps (some id) now s log k = elim (Bool-cases (id == org)) [
    | inl ours ↦ rw ours (
        rw (eq_of_eq-true id org ours)
          (rw (eq-false_of_ne org "" named, limits) (limited_self now s log k)))
    | inr theirs ↦ rw theirs (elim (Bool-cases (id == "")) [
      | inl empty ↦ rw empty k
      | inr full ↦ rw full (limited_other _ id now s log (ne_of_eq-false id org theirs) k)
    ])
  ]

  allowed_log-bounded :
      (rs : List Call) (now : Instant) (s : c.State) (log : List Instant)
      → IsOrdered now rs
      → Keeps c (cache_key org) limit duration now s log
      → (t : Instant) → in_window duration t (allowed_log c tiers orgs org rs s log) ≤ limit
  unfolding allowed_log allow_request
  allowed_log-bounded [] now s log ordered k = k.bounded
  allowed_log-bounded (r ∷ rs) now s log (le, ordered) k = allowed_log-bounded rs r.at _ _ ordered (
      for_org-Keeps (get_org_id r.request) r.at s log
        (Keeps-later c (cache_key org) limit duration now r.at s log le k))

  -- Calls come from any organisations, in the order of the clock, to a cache that holds no history of
  -- this one, whose limit is the number `limit`. Then in every window of an hour at most `limit` of
  -- the calls that count as this organisation's are let through.
  pub org_rate_limit :
      (rs : List Call) (start : Instant) (s : c.State)
      → IsOrdered start rs
      → ((later : Instant) → c.get (cache_key org) later s ≡ none)
      → (t : Instant) → in_window duration t (allowed_log c tiers orgs org rs s []) ≤ limit
  org_rate_limit rs start s ordered fresh =
      allowed_log-bounded rs start s [] ordered
        (Keeps-fresh c (cache_key org) limit duration start s fresh)
