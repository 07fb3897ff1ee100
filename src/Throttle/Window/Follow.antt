-- ===== src/Throttle/Window/Follow.antt =====
-- A history that is kept under a cache key, with the window's length as its timeout, follows the
-- log of all entries ever made: what the timeout drops, `expire` would drop too.
use django_boilerplate.Prelude.{
  ◌+◌, ◌≤◌, ◌≡◌, ◌≢◌, refl, sym, ◌∙◌, ap, ℕ, inl, inr, Bool-cases, List, [], ◌∷◌, arith, leb,
  leb→le, All, String, Instant,
}
use django_boilerplate.Cache.{Cache}
use django_boilerplate.Throttle.Window.{is_old, pop_if, expire, or_empty}

module _ (duration : ℕ) where
  expire-pop_if :
      (now later t : Instant) (r : List Instant)
      → now ≤ later
      → expire duration later (pop_if (is_old duration now t) t r)
        ≡ pop_if (is_old duration later t) t (expire duration later r)
  unfolding expire
  expire-pop_if now later t [] le = ground arith
  expire-pop_if now later t (x ∷ r) le = refl

  pub expire-expire :
      (now later : Instant) (h : List Instant)
      → now ≤ later
      → expire duration later (expire duration now h) ≡ expire duration later h
  unfolding expire
  expire-expire now later [] le = refl
  expire-expire now later (t ∷ h) le =
      expire-pop_if now later t (expire duration now h) le
      ∙ ap (pop_if (is_old duration later t) t) (expire-expire now later h le)

  pub expire-of_old :
      (later : Instant) (h : List Instant)
      → All (λ a. a + duration ≤ later) h
      → expire duration later h ≡ []
  unfolding expire
  expire-of_old later [] old = refl
  expire-of_old later (t ∷ h) (o, old) = rw (expire-of_old later h old) (ground arith)

  -- Two histories that agree at one instant agree at every later one.
  pub expire_agree :
      (now later : Instant) (g h : List Instant)
      → now ≤ later
      → expire duration now g ≡ expire duration now h
      → expire duration later g ≡ expire duration later h
  expire_agree now later g h le e =
      sym (expire-expire now later g le)
      ∙ ap (expire duration later) e
      ∙ expire-expire now later h le

  All-old :
      (t later : Instant) (h : List Instant)
      → t + duration ≤ later
      → All (λ a. a ≤ t) h
      → All (λ a. a + duration ≤ later) h
  All-old t later [] le past = tt
  All-old t later (a ∷ h) le (p, past) = (omega arith, All-old t later h le past)

  pub All-mono :
      (t u : Instant) (h : List Instant) → t ≤ u → All (λ a. a ≤ t) h → All (λ a. a ≤ u) h
  All-mono t u [] le past = tt
  All-mono t u (a ∷ h) le (p, past) = (omega arith, All-mono t u h le past)

  module _ (c : Cache (List Instant)) (key : String) where
    -- From `now` on, the history in the cache stands for the log.
    pub record Follows (now : Instant) (s : c.State) (log : List Instant) : Type 0 where
      pub agrees :
          (later : Instant)
          → now ≤ later
          → expire duration later (or_empty (c.get key later s)) ≡ expire duration later log
      pub past : All (λ a. a ≤ now) log

    pub Follows-later :
        (now later : Instant) (s : c.State) (log : List Instant)
        → now ≤ later
        → Follows now s log
        → Follows later s log
    Follows-later now later s log le f = record {
      agrees = λ t h. f.agrees t (omega arith);
      past = All-mono now later log le f.past;
    }

    -- A new entry is written in front of a history that agrees with the log.
    pub Follows-set :
        (now : Instant) (s : c.State) (h log : List Instant)
        → expire duration now h ≡ expire duration now log
        → All (λ a. a ≤ now) log
        → Follows now (c.set key (now ∷ h) duration now s) (now ∷ log)
    unfolding expire
    Follows-set now s h log e past = record {
      agrees = λ later le. elim (Bool-cases (leb (now + duration) later)) [
        | inl gone ↦ rw (c.get-set_expired key (now ∷ h) duration now later s (leb→le _ _ gone)) (
            sym (
              expire-of_old later (now ∷ log)
                (All-old now later (now ∷ log) (leb→le _ _ gone) (omega arith, past))))
        | inr live ↦
            rw (c.get-set_live key (now ∷ h) duration now later s (ground arith))
              (ap (pop_if (is_old duration later now) now) (expire_agree now later h log le e))
      ];
      past = (omega arith, past);
    }

    -- A write under another key changes nothing.
    pub Follows-set_ne :
        (other : String) (h : List Instant) (timeout now at : Instant) (s : c.State)
        (log : List Instant)
        → other ≢ key
        → Follows now s log
        → Follows now (c.set other h timeout at s) log
    Follows-set_ne other h timeout now at s log ne f = record {
      agrees = λ later le. rw (c.get-set_ne other key h timeout at later s ne) (f.agrees later le);
      past = f.past;
    }
