-- ===== src/Throttle/Mfa/Failures.antt =====
-- However many verification attempts are made, few of them fail in a window.
use Prim.Native.Nat.{◌≤◌}
use django_boilerplate.Prelude.{
  ℕ, ◌≡◌, ◌≢◌, ◌<◌, inl, inr, Bool, true, false, Bool-cases, String, Option, none, some, List, [],
  ◌∷◌, arith, ◌==◌, eq_of_eq-true, ne_of_eq-false, lt_of_not-leb, length, if◌then◌else◌, Instant,
}
use django_boilerplate.Cache.{Cache}
use django_boilerplate.Throttle.Window.{expire, history}
use django_boilerplate.Throttle.Window.Bound.{in_window}
use django_boilerplate.Throttle.Window.Follow.{Follows-set_ne}
use django_boilerplate.Throttle.Window.Admit.{
  Keeps, Keeps-fresh, Keeps-later, Keeps-record, history-eq,
}
use django_boilerplate.Throttle.Mfa.Keys.{cache_key-ne, cache_key-injective}
use django_boilerplate.Throttle.Mfa.{
  Kind, token, user, ip, duration, max_attempts, cache_key, allow_request, increment,
  increment_mfa_failures, allow_all,
}

-- An attempt: the names under which it counts, when it is checked, whether the code is right, and
-- when the failure is recorded if it is not.
pub record Attempt : Type 0 where
  pub names : Kind → Option String
  pub at : Instant
  pub valid : Bool
  pub failed_at : Instant

abbrev pub IsOrdered : Instant → List Attempt → Type 0
IsOrdered now [] = Unit
IsOrdered now (a ∷ rs) = (now ≤ a.at) × (a.at ≤ a.failed_at) × IsOrdered a.failed_at rs

abbrev is_named : Option String → String → Bool
is_named none name = false
is_named (some n) name = n == name

module _ (c : Cache (List Instant)) where
  -- `MFAVerifyView` counts a failure after the throttles have let the attempt pass.
  unfoldable pub failed : Attempt → c.State → Bool
  failed a s = if a.valid then false else allow_all c a.names a.at s

  unfoldable pub attempt : Attempt → c.State → c.State
  unfolding failed
  attempt a s = if failed a s then increment_mfa_failures c a.names a.failed_at s else s

  -- The failures that counted under a name, the newest first.
  unfoldable pub failure_log : Kind → String → List Attempt → c.State → List Instant → List Instant
  failure_log k name [] s log = log
  failure_log k name (a ∷ rs) s log =
      failure_log k name rs (attempt a s)
        (if failed a s then (if is_named (a.names k) name then a.failed_at ∷ log else log) else log)

module _ (c : Cache (List Instant)) (k : Kind) (name : String) where
  abbrev Kept : Instant → c.State → List Instant → Type 0
  Kept = Keeps c (cache_key k name) (max_attempts k) (duration k)

  abbrev logged : Option String → Instant → List Instant → List Instant
  logged nm now log = if is_named nm name then now ∷ log else log

  set_ne-Kept :
      (other : String) (h : List Instant) (timeout now : ℕ) (s : c.State) (log : List Instant)
      → other ≢ cache_key k name
      → Kept now s log
      → Kept now (c.set other h timeout now s) log
  set_ne-Kept other h timeout now s log ne kept = record {
    follows =
        Follows-set_ne (duration k) c (cache_key k name) other h timeout now now s log ne
          kept.follows;
    bounded = kept.bounded;
  }

  increment_other :
      (j : Kind) (nm : Option String) (now : Instant) (s : c.State) (log : List Instant)
      → k ≢ j
      → Kept now s log
      → Kept now (increment c j nm now s) log
  unfolding increment
  increment_other j none now s log ne kept = kept
  increment_other j (some m) now s log ne kept =
      set_ne-Kept (cache_key j m) _ (duration j) now s log (cache_key-ne k j name m ne) kept

  increment_own :
      (nm : Option String) (at now : Instant) (s : c.State) (log : List Instant)
      → at ≤ now
      → (is_named nm name ≡ true → length (expire (duration k) at log) < max_attempts k)
      → Kept now s log
      → Kept now (increment c k nm now s) (logged nm now log)
  unfolding increment
  increment_own none at now s log le room kept = kept
  increment_own (some m) at now s log le room kept = elim (Bool-cases (m == name)) [
    | inl same ↦ rw same (
        rw (eq_of_eq-true m name same) (
          Keeps-record c (cache_key k name) (max_attempts k) (duration k) at now s s _ log le
            (room same) (kept.follows.agrees now (omega arith)) kept))
    | inr other ↦ rw other (
        set_ne-Kept (cache_key k m) _ (duration k) now s log
          (λ e. ne_of_eq-false m name other (cache_key-injective k m name e)) kept)
  ]

  -- A throttle that lets an attempt pass has room in the window before it.
  allow_request-room :
      (nm : Option String) (at : Instant) (s : c.State) (log : List Instant)
      → Kept at s log
      → allow_request c k nm at s ≡ true
      → is_named nm name ≡ true
      → length (expire (duration k) at log) < max_attempts k
  unfolding allow_request
  allow_request-room none at s log kept passed named = cc
  allow_request-room (some m) at s log kept passed named =
      let same : history c (cache_key k name) (duration k) at s ≡ expire (duration k) at log =
        history-eq c (cache_key k name) (max_attempts k) (duration k) at s log kept in
      rw (← same) (lt_of_not-leb _ _ (rw (eq_of_eq-true m name named) at passed))

allow_all-each :
    (c : Cache (List Instant)) (k : Kind) (names : Kind → Option String) (at : Instant)
    (s : c.State)
    → allow_all c names at s ≡ true
    → allow_request c k (names k) at s ≡ true
unfolding allow_all
allow_all-each c token names at s h = ground arith
allow_all-each c user names at s h = ground arith
allow_all-each c ip names at s h = ground arith

failed-allowed :
    (c : Cache (List Instant)) (a : Attempt) (s : c.State)
    → failed c a s ≡ true
    → allow_all c a.names a.at s ≡ true
unfolding failed
failed-allowed c a s h = ground arith

module _ (c : Cache (List Instant)) (name : String) where
  increment_all-Kept :
      (k : Kind) (names : Kind → Option String) (at now : Instant) (s : c.State)
      (log : List Instant)
      → at ≤ now
      → (is_named (names k) name ≡ true → length (expire (duration k) at log) < max_attempts k)
      → Kept c k name now s log
      → Kept c k name now (increment_mfa_failures c names now s) (logged c k name (names k) now log)
  unfolding increment_mfa_failures
  increment_all-Kept token names at now s log le room kept =
      increment_other c token name ip (names ip) now _ _ (cc) (
        increment_other c token name user (names user) now _ _ (cc)
          (increment_own c token name (names token) at now s log le room kept))
  increment_all-Kept user names at now s log le room kept =
      increment_other c user name ip (names ip) now _ _ (cc) (
        increment_own c user name (names user) at now _ log le room
          (increment_other c user name token (names token) now s log (cc) kept))
  increment_all-Kept ip names at now s log le room kept =
      increment_own c ip name (names ip) at now _ log le room (
        increment_other c ip name user (names user) now _ log (cc)
          (increment_other c ip name token (names token) now s log (cc) kept))

module _ (c : Cache (List Instant)) (k : Kind) (name : String) where
  attempt-Kept :
      (a : Attempt) (s : c.State) (log : List Instant)
      → a.at ≤ a.failed_at
      → Kept c k name a.at s log
      → Kept c k name a.failed_at
          (attempt c a s)
          (if failed c a s then logged c k name (a.names k) a.failed_at log else log)
  unfolding attempt
  attempt-Kept a s log le kept =
      let later : Kept c k name a.failed_at s log =
        Keeps-later c (cache_key k name) (max_attempts k) (duration k) a.at a.failed_at s log le
          kept in
      elim (Bool-cases (failed c a s)) [
        | inl passed ↦ rw passed (
            increment_all-Kept c name k a.names a.at a.failed_at s log le
              (allow_request-room c k name (a.names k) a.at s log kept
                (allow_all-each c k a.names a.at s (failed-allowed c a s passed)))
              later)
        | inr neg ↦ rw neg later
      ]

  failure_log-bounded :
      (rs : List Attempt) (now : Instant) (s : c.State) (log : List Instant)
      → IsOrdered now rs
      → Kept c k name now s log
      → (t : Instant) → in_window (duration k) t (failure_log c k name rs s log) ≤ max_attempts k
  unfolding failure_log
  failure_log-bounded [] now s log ordered kept = kept.bounded
  failure_log-bounded (a ∷ rs) now s log (le, le', ordered) kept =
      failure_log-bounded rs a.failed_at _ _ ordered (
        attempt-Kept a s log le'
          (Keeps-later c (cache_key k name) (max_attempts k) (duration k) now a.at s log le kept))

  -- Attempts at MFA verification are made one after the other, under any tokens, users and addresses,
  -- on a cache that holds no failure of this token, user or address. Then in every window of 15
  -- minutes at most 5 attempts with one token fail, and in every hour at most 10 of one user and at
  -- most 20 from one address.
  pub mfa_failure_limit :
      (rs : List Attempt) (start : Instant) (s : c.State)
      → IsOrdered start rs
      → ((later : Instant) → c.get (cache_key k name) later s ≡ none)
      → (t : Instant) → in_window (duration k) t (failure_log c k name rs s []) ≤ max_attempts k
  mfa_failure_limit rs start s ordered fresh =
      failure_log-bounded rs start s [] ordered
        (Keeps-fresh c (cache_key k name) (max_attempts k) (duration k) start s fresh)
