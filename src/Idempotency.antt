-- ===== src/Idempotency.antt =====
-- api/idempotency.py: a mutating request is let through once for each idempotency key.
pub mod Once
mod Tests
use django_boilerplate.Prelude.{
  ℕ, String, Bool, true, false, Option, none, some, List, [], ◌∷◌, ◌==◌, contains, if◌then◌else◌,
  Instant, seconds,
}
use django_boilerplate.Crypto.{Digests}
use django_boilerplate.Cache.{Cache}

-- What the middleware reads of a request; `body` is empty where the bytes are not UTF-8.
pub record Request : Type 0 where
  pub method : String
  pub path : String
  pub body : String
  pub idempotency_key : Option String

pub data Verdict : Type 0 where
  passed duplicate key_reuse : Verdict

abbrev pub safe_methods : List String
safe_methods = "GET" ∷ "HEAD" ∷ "OPTIONS" ∷ "TRACE" ∷ []

-- `dumps` is `json.dumps(..., sort_keys=True)` of the method, the path and the body.
module _ (d : Digests) (dumps : (body method path : String) → String) where
  unfoldable pub hash_request : Request → String
  hash_request r = d.sha256 (dumps r.body r.method r.path)

  module _ (c : Cache String) (ttl : ℕ) where
    store : String → Request → Instant → c.State → Verdict × c.State
    store key r now s = (passed, c.set key (hash_request r) (seconds ttl) now s)

    compare_stored : Option String → String → Request → Instant → c.State → Verdict × c.State
    compare_stored none key r now s = store key r now s
    compare_stored (some existing) key r now s =
        if existing == ""
        then store key r now s
        else if existing == hash_request r
        then (duplicate, s)
        else (key_reuse, s)

    with_key : Option String → Request → Instant → c.State → Verdict × c.State
    with_key none r now s = (passed, s)
    with_key (some key) r now s =
        if key == "" then (passed, s) else compare_stored (c.get key now s) key r now s

    unfoldable pub process_request : Request → Instant → c.State → Verdict × c.State
    unfolding with_key compare_stored store
    process_request r now s =
        if contains safe_methods r.method then (passed, s) else with_key r.idempotency_key r now s
