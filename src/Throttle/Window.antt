-- ===== src/Throttle/Window.antt =====
-- The sliding window that the throttles of api/throttling*.py share: a history of instants with the
-- newest first, from whose end the entries older than `duration` are popped.
pub mod Bound
pub mod Follow
pub mod Admit
use django_boilerplate.Cache.{Cache}
use django_boilerplate.Prelude.{
  ℕ, ◌+◌, ◌≤◌, ◌≡◌, refl, Bool, Option, none, some, List, [], ◌∷◌, arith, leb, if◌then◌else◌,
  Instant, String, length, true, false,
}

-- `t <= now - duration`, without the subtraction.
abbrev pub is_old : ℕ → Instant → Instant → Bool
is_old duration now t = leb (t + duration) now

-- An entry is popped if all behind it were popped and it is old itself.
abbrev pub pop_if : Bool → Instant → List Instant → List Instant
pop_if old t [] = if old then [] else t ∷ []
pop_if old t (r ∷ rs) = t ∷ r ∷ rs

unfoldable pub expire : ℕ → Instant → List Instant → List Instant
expire duration now [] = []
expire duration now (t ∷ ts) = pop_if (is_old duration now t) t (expire duration now ts)

-- `cache.get(key, [])`
abbrev pub or_empty : Option (List Instant) → List Instant
or_empty none = []
or_empty (some h) = h

-- The history under a key, without the entries that are old at `now`.
unfoldable pub history : (c : Cache (List Instant)) → String → ℕ → Instant → c.State → List Instant
unfolding expire
history c key duration now s = expire duration now (or_empty (c.get key now s))

-- `if len(history) >= limit: return False`, and else the request is recorded.
unfoldable pub admit :
    (c : Cache (List Instant)) → String → ℕ → ℕ → Instant → c.State → Bool × c.State
admit c key limit duration now s =
    if leb limit (length (history c key duration now s))
    then (false, s)
    else (true, c.set key (now ∷ history c key duration now s) duration now s)
