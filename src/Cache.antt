-- ===== src/Cache.antt =====
-- Django's cache (`django.core.cache.caches[...]`), which is not part of the repository: its
-- operations, and the documented behaviour of a key with a timeout. A value is gone at the first
-- instant at which its timeout has passed.
pub mod Table
use django_boilerplate.Prelude.{
  ℕ, ◌+◌, ◌≤◌, ◌<◌, String, ◌≡◌, ◌≢◌, Option, none, some, Bool, true, false, Instant,
}

pub record Cache (V : Type 0) : Type 1 where
  pub State : Type 0
  pub get : String → Instant → State → Option V
  pub set : String → V → (timeout now : ℕ) → State → State
  pub delete : String → State → State
  pub get-set_live :
      (k : String) (v : V) (timeout now later : ℕ) (s : State)
      → later < now + timeout
      → get k later (set k v timeout now s) ≡ some v
  pub get-set_expired :
      (k : String) (v : V) (timeout now later : ℕ) (s : State)
      → now + timeout ≤ later
      → get k later (set k v timeout now s) ≡ none
  pub get-set_ne :
      (k j : String) (v : V) (timeout now later : ℕ) (s : State)
      → k ≢ j
      → get j later (set k v timeout now s) ≡ get j later s
  pub get-delete_self : (k : String) (later : ℕ) (s : State) → get k later (delete k s) ≡ none
  pub get-delete_ne :
      (k j : String) (later : ℕ) (s : State) → k ≢ j → get j later (delete k s) ≡ get j later s

-- `add`: sets a key that has no value, and says whether it did.
module _ {V : Type 0} (c : Cache V) where
  abbrev pub add_over : Option V → String → V → (timeout now : ℕ) → c.State → Bool × c.State
  add_over none k v timeout now s = (true, c.set k v timeout now s)
  add_over (some w) k v timeout now s = (false, s)

  abbrev pub add : String → V → (timeout now : ℕ) → c.State → Bool × c.State
  add k v timeout now s = add_over (c.get k now s) k v timeout now s
