-- ===== src/Throttle/Window/Admit.antt =====
-- A log kept through `admit` never has more than `limit` entries in a window.
use django_boilerplate.Prelude.{
  ℕ, ◌≤◌, ◌<◌, ◌≡◌, ◌≢◌, inl, inr, Bool-cases, String, none, List, [], ◌∷◌, arith, leb, length,
  if◌then◌else◌, Instant,
}
use django_boilerplate.Cache.{Cache}
use django_boilerplate.Throttle.Window.{expire, history, admit}
use django_boilerplate.Throttle.Window.Bound.{in_window, in_window-cons}
use django_boilerplate.Throttle.Window.Follow.{
  expire-expire, Follows, Follows-later, Follows-set, Follows-set_ne,
}

-- What holds of the log of a key's recorded entries.
pub record Keeps (c : Cache (List Instant)) (key : String) (limit duration : ℕ) (now : Instant)
    (s : c.State) (log : List Instant) : Type 0 where
  pub follows : Follows duration c key now s log
  pub bounded : (t : Instant) → in_window duration t log ≤ limit

module _ (c : Cache (List Instant)) (key : String) (limit duration : ℕ) where
  -- Nothing is recorded under the key yet.
  pub Keeps-fresh :
      (now : Instant) (s : c.State)
      → ((later : Instant) → c.get key later s ≡ none)
      → Keeps c key limit duration now s []
  Keeps-fresh now s fresh = record {
    follows = record { agrees = λ later le. rw (fresh later); past = tt };
    bounded = λ t. omega arith;
  }

  pub Keeps-later :
      (now later : Instant) (s : c.State) (log : List Instant)
      → now ≤ later
      → Keeps c key limit duration now s log
      → Keeps c key limit duration later s log
  Keeps-later now later s log le k = record {
    follows = Follows-later duration c key now later s log le k.follows;
    bounded = k.bounded;
  }

  -- The history that the cache holds is the log without its old entries.
  pub history-eq :
      (now : Instant) (s : c.State) (log : List Instant)
      → Keeps c key limit duration now s log
      → history c key duration now s ≡ expire duration now log
  unfolding history
  history-eq now s log k = k.follows.agrees now (omega arith)

  -- An entry at `after`, recorded on a history that agrees with the log, when there was room at `now`.
  pub Keeps-record :
      (now after : Instant) (s t : c.State) (h log : List Instant)
      → now ≤ after
      → length (expire duration now log) < limit
      → expire duration after h ≡ expire duration after log
      → Keeps c key limit duration after s log
      → Keeps c key limit duration after (c.set key (after ∷ h) duration after t) (after ∷ log)
  Keeps-record now after s t h log le room same k = record {
    follows = Follows-set duration c key after t h log same k.follows.past;
    bounded = in_window-cons duration limit now after log le room k.bounded;
  }

  pub admit_self :
      (now : Instant) (s : c.State) (log : List Instant)
      → Keeps c key limit duration now s log
      → Keeps c key limit duration now
          (admit c key limit duration now s).1
          (if (admit c key limit duration now s).0 then now ∷ log else log)
  unfolding admit
  admit_self now s log k =
      let same = history-eq now s log k in
      elim (Bool-cases (leb limit (length (history c key duration now s)))) [
        | inl full ↦ rw full k
        | inr room ↦ rw room (
            Keeps-record now now s s _ log (omega arith) (rw (← same) (ground arith))
              (rw same (expire-expire duration now now log (omega arith))) k)
      ]

  pub admit_other :
      (other : String) (limit' : ℕ) (now : Instant) (s : c.State) (log : List Instant)
      → other ≢ key
      → Keeps c key limit duration now s log
      → Keeps c key limit duration now (admit c other limit' duration now s).1 log
  unfolding admit
  admit_other other limit' now s log ne k =
      elim (Bool-cases (leb limit' (length (history c other duration now s)))) [
        | inl full ↦ rw full k
        | inr room ↦ rw room (record {
          follows = Follows-set_ne duration c key other _ duration now now s log ne k.follows;
          bounded = k.bounded;
        })
      ]
