-- ===== src/AccessKey/Replay.antt =====
-- The nonces of api/auth_access_key.py: how long they keep a request from being sent again.
use django_boilerplate.Prelude.{
  ◌≡◌, refl, ap, subst, sym, ◌∙◌, ℕ, ◌+◌, ◌/◌, ◌≤◌, ◌<◌, String, Bool, true, false, Option-cases,
  inl, inr, Option, none, some, List, arith, eq_iff, int, if-cases, if-true, if-false, Instant,
  seconds,
}
use django_boilerplate.Crypto.{Digests}
use django_boilerplate.Cache.{Cache, add_over}
use django_boilerplate.AccessKey.Header.{Credentials}
use django_boilerplate.AccessKey.{
  AccessKeyPair, Request, Outcome, replayed, invalid_signature, authenticated, tolerance,
  is_expired, find_key, given, expected_signature, nonce_key, validate_credentials, with_time,
  with_key, check_nonce, after_nonce, check_signature, verify_nonce,
}
use django_boilerplate.AccessKey.Accepted.{credentials-IsSigned}

abbrev pub is_authenticated : Outcome → Bool
is_authenticated (authenticated k) = true
is_authenticated _ = false

some-inj : (a b : ℕ) → ◌≡◌ {A = Option ℕ} (some a) (some b) → a ≡ b
some-inj a b h = ground arith

module _ (d : Digests) (c : Cache String) where
  -- `validate_credentials` up to the nonce.
  at_nonce :
      (r : Request) (cred : Credentials) (keys : List AccessKeyPair) (now : Instant) (s : c.State)
      (t : ℕ) (k : AccessKeyPair)
      → int cred.timestamp ≡ some t
      → is_expired (now / 1000000) t ≡ false
      → find_key cred.access_key_id keys ≡ some k
      → validate_credentials d c r cred keys now s
        ≡ check_nonce d c r cred (given cred.nonce) k now s
  unfolding validate_credentials with_time with_key
  at_nonce r cred keys now s t k read live found =
      ap (λ o. with_time d c r cred o keys now s) read
      ∙ if-false _ _ _ live
      ∙ ap (λ o. with_key d c r cred o now s) found

  nonce-new :
      (r : Request) (cred : Credentials) (nonce : String) (k : AccessKeyPair) (now : Instant)
      (s : c.State)
      → c.get (nonce_key cred.access_key_id nonce) now s ≡ none
      → check_nonce d c r cred (some nonce) k now s ≡ (
        check_signature d c r cred (some nonce) k,
        c.set (nonce_key cred.access_key_id nonce) "1" (seconds tolerance) now s,
      )
  unfolding check_nonce after_nonce verify_nonce
  nonce-new r cred nonce k now s unseen =
      let key = nonce_key cred.access_key_id nonce in
      ap (λ o. after_nonce d c r cred nonce k (add_over c o key "1" (seconds tolerance) now s))
        unseen

  nonce-old :
      (r : Request) (cred : Credentials) (nonce v : String) (k : AccessKeyPair) (now : Instant)
      (s : c.State)
      → c.get (nonce_key cred.access_key_id nonce) now s ≡ some v
      → check_nonce d c r cred (some nonce) k now s ≡ (replayed, s)
  unfolding check_nonce after_nonce verify_nonce
  nonce-old r cred nonce v k now s seen =
      let key = nonce_key cred.access_key_id nonce in
      ap (λ o. after_nonce d c r cred nonce k (add_over c o key "1" (seconds tolerance) now s)) seen

  -- A request that comes as far as its nonce, with a good signature or a bad one, and the state after it.
  abbrev pub Reaches : Outcome → Type 0
  Reaches (authenticated k) = Unit
  Reaches invalid_signature = Unit
  Reaches _ = ⊥

  module _ (r : Request) (cred : Credentials) (keys : List AccessKeyPair) (now : Instant)
      (s : c.State) where
    abbrev after : Outcome × c.State
    after = validate_credentials d c r cred keys now s

    abbrev IsMarked : String → Outcome × c.State → Type 0
    IsMarked nonce x =
        Reaches x.0 → x.1 ≡ c.set (nonce_key cred.access_key_id nonce) "1" (seconds tolerance) now s

    nonce-IsMarked :
        (nonce : String) (k : AccessKeyPair)
        → IsMarked nonce (check_nonce d c r cred (some nonce) k now s)
    nonce-IsMarked nonce k =
        elim (Option-cases (c.get (nonce_key cred.access_key_id nonce) now s)) [
          | inl unseen ↦ λ h. ap (λ x. x.1) (nonce-new r cred nonce k now s unseen)
          | inr (v, seen) ↦
              λ h. absurd (subst (λ x. Reaches x.0) (nonce-old r cred nonce v k now s seen) h)
        ]

    key-IsMarked :
        (nonce : String)
        → given cred.nonce ≡ some nonce
        → (o : Option AccessKeyPair) → IsMarked nonce (with_key d c r cred o now s)
    unfolding with_key
    key-IsMarked nonce e none = λ h. absurd h
    key-IsMarked nonce e (some k) =
        subst (λ o. IsMarked nonce (check_nonce d c r cred o k now s)) (sym e)
          (nonce-IsMarked nonce k)

    time-IsMarked :
        (nonce : String)
        → given cred.nonce ≡ some nonce
        → (o : Option ℕ) → IsMarked nonce (with_time d c r cred o keys now s)
    unfolding with_time
    time-IsMarked nonce e none = λ h. absurd h
    time-IsMarked nonce e (some t) =
        if-cases (IsMarked nonce) (is_expired (now / 1000000) t) _ _ (λ late h. absurd h)
          (λ live. key-IsMarked nonce e (find_key cred.access_key_id keys))

    marked : (nonce : String) → given cred.nonce ≡ some nonce → IsMarked nonce after
    unfolding validate_credentials
    marked nonce e = time-IsMarked nonce e (int cred.timestamp)

  module _ (r : Request) (cred : Credentials) (keys : List AccessKeyPair) (now : Instant)
      (s : c.State) (nonce : String) (named : given cred.nonce ≡ some nonce)
      (seen : c.get (nonce_key cred.access_key_id nonce) now s ≡ some "1") where
    abbrev IsBad : Outcome × c.State → Type 0
    IsBad x = is_authenticated x.0 ≡ false

    key-refused : (o : Option AccessKeyPair) → IsBad (with_key d c r cred o now s)
    unfolding with_key
    key-refused none = refl
    key-refused (some k) =
        ap (λ o. is_authenticated (check_nonce d c r cred o k now s).0) named
        ∙ ap (λ x. is_authenticated x.0) (nonce-old r cred nonce "1" k now s seen)

    time-refused : (o : Option ℕ) → IsBad (with_time d c r cred o keys now s)
    unfolding with_time
    time-refused none = refl
    time-refused (some t) =
        if-cases IsBad (is_expired (now / 1000000) t) _ _ (λ late. refl)
          (λ live. key-refused (find_key cred.access_key_id keys))

    refused : IsBad (validate_credentials d c r cred keys now s)
    unfolding validate_credentials
    refused = time-refused (int cred.timestamp)

  -- Once a request with a nonce came as far as its signature, good or bad, no request with the same
  -- key and nonce is authenticated until the tolerance has passed.
  pub nonce_spent :
      (r r' : Request) (cred cred' : Credentials) (keys keys' : List AccessKeyPair) (nonce : String)
      (now later : Instant) (s : c.State)
      → given cred.nonce ≡ some nonce
      → given cred'.nonce ≡ some nonce
      → cred'.access_key_id ≡ cred.access_key_id
      → later < now + seconds tolerance
      → Reaches (validate_credentials d c r cred keys now s).0
      → let after = (validate_credentials d c r cred keys now s).1 in
        is_authenticated (validate_credentials d c r' cred' keys' later after).0 ≡ false
  nonce_spent r r' cred cred' keys keys' nonce now later s named named' same soon reached =
      let state = marked r cred keys now s nonce named reached in
      refused r' cred' keys' later (validate_credentials d c r cred keys now s).1 nonce named' (
        ap (λ x. c.get (nonce_key cred'.access_key_id nonce) later x) state
        ∙ ap
            (λ id.
              c.get (nonce_key id nonce) later
                (c.set (nonce_key cred.access_key_id nonce) "1" (seconds tolerance) now s))
            same
        ∙ c.get-set_live (nonce_key cred.access_key_id nonce) "1" (seconds tolerance) now later s
            soon)

  good_signature :
      (r : Request) (cred : Credentials) (nonce : String) (k : AccessKeyPair)
      → given cred.nonce ≡ some nonce
      → expected_signature d c r cred (given cred.nonce) k ≡ cred.signature
      → check_signature d c r cred (some nonce) k ≡ authenticated k
  unfolding check_signature
  good_signature r cred nonce k named signed = if-true _ _ _ (
      (eq_iff (expected_signature d c r cred (some nonce) k) cred.signature).1
        (ap (λ o. expected_signature d c r cred o k) (sym named) ∙ signed))

  -- A request that was authenticated with a nonce is authenticated a second time when the tolerance
  -- has passed on the cache's clock, if its timestamp is then still within the tolerance: so is any
  -- whose timestamp was not behind the clock at first, in the second at which the nonce is gone.
  pub replay_accepted :
      (r : Request) (cred : Credentials) (keys : List AccessKeyPair) (k : AccessKeyPair)
      (nonce : String) (t : ℕ) (now later : Instant) (s : c.State)
      → given cred.nonce ≡ some nonce
      → int cred.timestamp ≡ some t
      → (validate_credentials d c r cred keys now s).0 ≡ authenticated k
      → now + seconds tolerance ≤ later
      → later / 1000000 ≤ t + tolerance
      → let after = (validate_credentials d c r cred keys now s).1 in
        (validate_credentials d c r cred keys later after).0 ≡ authenticated k
  unfolding is_expired
  replay_accepted r cred keys k nonce t now later s named read first gone within =
      let signed = credentials-IsSigned d c r keys now cred k s first in
      let t_eq : signed.request_time ≡ t = some-inj _ _ (sym signed.read_time ∙ read) in
      let state = marked r cred keys now s nonce named (subst Reaches (sym first) tt) in
      ap (λ x. x.0)
        (at_nonce r cred keys later (validate_credentials d c r cred keys now s).1 t k read
            (ground (arith, t_eq, signed.not_ahead)) signed.key
          ∙ ap
              (λ o. check_nonce d c r cred o k later (validate_credentials d c r cred keys now s).1)
              named
          ∙ nonce-new r cred nonce k later (validate_credentials d c r cred keys now s).1 (
              ap (λ x. c.get (nonce_key cred.access_key_id nonce) later x) state
              ∙ c.get-set_expired (nonce_key cred.access_key_id nonce) "1" (seconds tolerance) now
                  later s gone))
      ∙ good_signature r cred nonce k named signed.signed
