-- ===== src/Idempotency/Once.antt =====
-- The second request with an idempotency key, api/idempotency.py.
use django_boilerplate.Prelude.{
  ◌≡◌, ◌≢◌, refl, ap, ◌∙◌, ℕ, ◌+◌, ◌≤◌, ◌<◌, String, Bool, true, false, Option, none, some, ◌==◌,
  contains, if◌then◌else◌, if-false, eq-false_of_ne, Instant, seconds,
}
use django_boilerplate.Crypto.{Digests}
use django_boilerplate.Cache.{Cache}
use django_boilerplate.Idempotency.{
  Request, Verdict, passed, duplicate, key_reuse, safe_methods, hash_request, process_request,
  with_key, compare_stored, store,
}

module _ (d : Digests) (dumps : (body method path : String) → String) (c : Cache String)
    (ttl : ℕ) where
  reply-of_stored :
      (r : Request) (key : String) (o : Option String) (now : Instant) (s : c.State)
      → contains safe_methods r.method ≡ false
      → r.idempotency_key ≡ some key
      → key ≢ ""
      → c.get key now s ≡ o
      → process_request d dumps c ttl r now s ≡ compare_stored d dumps c ttl o key r now s
  unfolding process_request with_key
  reply-of_stored r key o now s mutating given named stored =
      if-false _ _ _ mutating
      ∙ ap (λ k. with_key d dumps c ttl k r now s) given
      ∙ if-false _ _ _ (eq-false_of_ne key "" named)
      ∙ ap (λ x. compare_stored d dumps c ttl x key r now s) stored

  hash-named : (r : Request) → hash_request d dumps r ≢ ""
  unfolding hash_request
  hash-named r = d.sha256-ne-empty (dumps r.body r.method r.path)

  split_reply :
      (b : Bool) (s : c.State)
      → ◌≡◌ {A = Verdict × c.State}
          (if b then (duplicate, s) else (key_reuse, s))
          (if b then duplicate else key_reuse, s)
  split_reply true s = refl
  split_reply false s = refl

  -- A mutating request with a key that has no entry is let through. Until the lifetime of its entry
  -- has passed, a mutating request with the same key is rejected, as a duplicate exactly if the digest of
  -- its method, path and body is the same, and leaves the entry as it is. Afterwards it is let through.
  pub second_request :
      (r r' : Request) (key : String) (now later : Instant) (s : c.State)
      → key ≢ ""
      → contains safe_methods r.method ≡ false
      → contains safe_methods r'.method ≡ false
      → r.idempotency_key ≡ some key
      → r'.idempotency_key ≡ some key
      → c.get key now s ≡ none
      → let first = process_request d dumps c ttl r now s in
        let second = process_request d dumps c ttl r' later first.1 in
        (first.0 ≡ passed)
        × (later < now + seconds ttl
            → second ≡ (
              if hash_request d dumps r == hash_request d dumps r' then duplicate else key_reuse,
              first.1,
            ))
        × (now + seconds ttl ≤ later → second.0 ≡ passed)
  unfolding compare_stored store
  second_request r r' key now later s named m m' g g' new =
      let hash = hash_request d dumps r in
      let e = reply-of_stored r key none now s m g named new in
      let after = (process_request d dumps c ttl r now s).1 in
      (
        ap (λ x. x.0) e,
        λ live.
            reply-of_stored r' key (some hash) later after m' g' named (
              ap (λ x. c.get key later x.1) e
              ∙ c.get-set_live key hash (seconds ttl) now later s live)
            ∙ if-false _ _ _ (eq-false_of_ne hash "" (hash-named r))
            ∙ split_reply (hash == hash_request d dumps r') after,
        λ gone.
            ap (λ x. x.0)
              (reply-of_stored r' key none later after m' g' named (
                ap (λ x. c.get key later x.1) e
                ∙ c.get-set_expired key hash (seconds ttl) now later s gone)),
      )
