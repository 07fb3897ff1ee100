-- ===== src/Auth/Profile/Lockout.antt =====
-- The lockout of api/models_local_auth.py bounds how many passwords can be tried.
use django_boilerplate.Prelude.{
  ℕ, ◌+◌, ◌≤◌, ◌≡◌, refl, String, true, false, Bool-cases, inl, inr, Option, none, some, List, [],
  ◌∷◌, arith, leb, length, All, leb→le, if◌then◌else◌, Instant, seconds,
}
use django_boilerplate.Throttle.Window.Bound.{in_window}
use django_boilerplate.Auth.{LocalUserProfile, Settings}
use django_boilerplate.Auth.Profile.{is_locked, record_login_attempt}

-- A guess with a wrong password: it counts if the account is not locked at that instant.
module _ (st : Settings) where
  abbrev lock_time : ℕ
  lock_time = seconds st.lockout_duration

  unfoldable pub guess : Instant → LocalUserProfile → LocalUserProfile
  guess now p = if is_locked now p then p else (record_login_attempt st false none now p).0

  unfoldable pub guess_log : List Instant → LocalUserProfile → List Instant → List Instant
  guess_log [] p log = log
  guess_log (now ∷ times) p log =
      guess_log times (guess now p) (if is_locked now p then log else now ∷ log)

  abbrev pub IsOrdered : Instant → List Instant → Type 0
  IsOrdered now [] = Unit
  IsOrdered now (t ∷ times) = (now ≤ t) × IsOrdered t times

  -- The newest guess locks the account from the `max_failed_attempts`-th on.
  abbrev Locks : List Instant → LocalUserProfile → Type 0
  Locks [] p = Unit
  Locks (t ∷ log) p =
      st.max_failed_attempts ≤ length (t ∷ log) → p.locked_until ≡ some (t + lock_time)

  -- No entry is newer than the first.
  abbrev Newest : List Instant → Type 0
  Newest [] = Unit
  Newest (t ∷ log) = All (λ a. a ≤ t) log

  record Tries (now : Instant) (p : LocalUserProfile) (log : List Instant) : Type 0 where
    counted : p.failed_login_attempts ≡ length log
    past : All (λ a. a ≤ now) log
    newest : Newest log
    locks : Locks log p
    bounded : (t : Instant) → in_window lock_time t log ≤ st.max_failed_attempts

  in_window-le-length : (t : Instant) (log : List Instant) → in_window lock_time t log ≤ length log
  in_window-le-length t [] = omega arith
  in_window-le-length t (a ∷ log) = ground (arith, in_window-le-length t log)

  in_window-of_old :
      (t : Instant) (log : List Instant)
      → All (λ a. a + lock_time ≤ t) log
      → in_window lock_time t log ≡ 0
  in_window-of_old t [] old = refl
  in_window-of_old t (a ∷ log) (o, old) = ground (arith, in_window-of_old t log old)

  All-mono :
      (t u : Instant) (log : List Instant) → t ≤ u → All (λ a. a ≤ t) log → All (λ a. a ≤ u) log
  All-mono t u [] le past = tt
  All-mono t u (a ∷ log) le (p, past) = (omega arith, All-mono t u log le past)

  All-old :
      (t later : Instant) (log : List Instant)
      → t + lock_time ≤ later
      → All (λ a. a ≤ t) log
      → All (λ a. a + lock_time ≤ later) log
  All-old t later [] le past = tt
  All-old t later (a ∷ log) le (p, past) = (omega arith, All-old t later log le past)

  All-weaken :
      (t u : Instant) (log : List Instant)
      → t ≤ u
      → All (λ a. a + lock_time ≤ t) log
      → All (λ a. a + lock_time ≤ u) log
  All-weaken t u [] le old = tt
  All-weaken t u (a ∷ log) le (o, old) = (omega arith, All-weaken t u log le old)

  in_window-cons_le :
      (w t : Instant) (log : List Instant)
      → in_window lock_time w (t ∷ log) ≤ 1 + in_window lock_time w log
  in_window-cons_le w t log = ground arith

  unlocked :
      (t until : Instant) (p : LocalUserProfile)
      → p.locked_until ≡ some until
      → is_locked t p ≡ false
      → until ≤ t
  unlocked t until p e free = unfold is_locked in ground arith

  -- If the log holds its fill, all of it is older than the lock when a guess gets through.
  old-of_full :
      (t : Instant) (p : LocalUserProfile) (log : List Instant)
      → Newest log
      → Locks log p
      → st.max_failed_attempts ≤ length log
      → is_locked t p ≡ false
      → All (λ a. a + lock_time ≤ t) log
  old-of_full t p [] newest locks full free = tt
  old-of_full t p (a ∷ log) newest locks full free =
      let le : a + lock_time ≤ t = unlocked t (a + lock_time) p (locks full) free in
      (le, All-old a t log le newest)

  in_window-guess :
      (t w : Instant) (p : LocalUserProfile) (log : List Instant)
      → 1 ≤ st.max_failed_attempts
      → Tries t p log
      → is_locked t p ≡ false
      → in_window lock_time w (t ∷ log) ≤ st.max_failed_attempts
  in_window-guess t w p log positive k free =
      elim (Bool-cases (leb st.max_failed_attempts (length log))) [
        | inl full ↦
            let old = old-of_full t p log k.newest k.locks (leb→le _ _ full) free in
            elim (Bool-cases (leb t w)) [
              | inl later ↦ omega (
                arith,
                in_window-cons_le w t log,
                in_window-of_old w log (All-weaken t w log (leb→le _ _ later) old),
              )
              | inr before ↦ ground (arith, k.bounded w)
            ]
        | inr room ↦ ground (arith, in_window-le-length w (t ∷ log))
      ]

  failed_counted :
      (t : Instant) (p : LocalUserProfile)
      → (record_login_attempt st false none t p).0.failed_login_attempts
        ≡ p.failed_login_attempts + 1
  unfolding record_login_attempt
  failed_counted t p = ground arith

  failed_locks :
      (t : Instant) (p : LocalUserProfile)
      → st.max_failed_attempts ≤ p.failed_login_attempts + 1
      → (record_login_attempt st false none t p).0.locked_until ≡ some (t + lock_time)
  unfolding record_login_attempt
  failed_locks t p full = ground arith

  guess-Tries :
      (t : Instant) (p : LocalUserProfile) (log : List Instant)
      → 1 ≤ st.max_failed_attempts
      → Tries t p log
      → Tries t (guess t p) (if is_locked t p then log else t ∷ log)
  unfolding guess
  guess-Tries t p log positive k = elim (Bool-cases (is_locked t p)) [
    | inl locked ↦ rw locked k
    | inr free ↦ rw free (record {
      counted = omega (arith, failed_counted t p, k.counted);
      past = (omega arith, k.past);
      newest = k.past;
      locks = λ full. failed_locks t p (omega (arith, k.counted));
      bounded = λ w. in_window-guess t w p log positive k free;
    })
  ]

  Tries-later :
      (now later : Instant) (p : LocalUserProfile) (log : List Instant)
      → now ≤ later
      → Tries now p log
      → Tries later p log
  Tries-later now later p log le k = record {
    counted = k.counted;
    past = All-mono now later log le k.past;
    newest = k.newest;
    locks = k.locks;
    bounded = k.bounded;
  }

  guess_log-bounded :
      (times : List Instant) (now : Instant) (p : LocalUserProfile) (log : List Instant)
      → 1 ≤ st.max_failed_attempts
      → IsOrdered now times
      → Tries now p log
      → (w : Instant) → in_window lock_time w (guess_log times p log) ≤ st.max_failed_attempts
  unfolding guess_log
  guess_log-bounded [] now p log positive ordered k = k.bounded
  guess_log-bounded (t ∷ times) now p log positive (le, ordered) k =
      guess_log-bounded times t _ _ positive ordered
        (guess-Tries t p log positive (Tries-later now t p log le k))

  -- An attacker tries wrong passwords on an account without failures, at any instants in the order of
  -- the clock, with a failure limit of at least 1. Then in every window as long as the lockout at most
  -- `max_failed_attempts` passwords are looked at.
  pub guesses_bounded :
      (times : List Instant) (start : Instant) (p : LocalUserProfile)
      → 1 ≤ st.max_failed_attempts
      → p.failed_login_attempts ≡ 0
      → IsOrdered start times
      → (w : Instant) → in_window lock_time w (guess_log times p []) ≤ st.max_failed_attempts
  guesses_bounded times start p positive fresh ordered =
      guess_log-bounded times start p [] positive ordered
        (record { counted = fresh; past = tt; newest = tt; locks = tt; bounded = λ w. omega arith })

-- After a lockout has run out one wrong password locks the account again: the count is not reset.
pub relock :
    (st : Settings) (ip : Option String) (now later : Instant) (p : LocalUserProfile)
    → (record_login_attempt st false ip now p).1 ≡ true
    → (record_login_attempt st false ip later (record_login_attempt st false ip now p).0).1 ≡ true
unfolding record_login_attempt
relock st ip now later p locked = ground arith
