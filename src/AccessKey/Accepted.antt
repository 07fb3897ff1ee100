-- ===== src/AccessKey/Accepted.antt =====
-- What a request was that api/auth_access_key.py authenticates.
use django_boilerplate.Prelude.{
  ◌≡◌, refl, subst, ℕ, ◌+◌, ◌/◌, ◌≤◌, String, false, not, ◌&&◌, Option, none, some, List, [], ◌∷◌,
  arith, ◌==◌, int, if-cases, Instant, eq_of_eq-true, after_prefix,
}
use django_boilerplate.Crypto.{Digests}
use django_boilerplate.Cache.{Cache}
use django_boilerplate.AccessKey.Header.{Credentials, parse_header}
use django_boilerplate.AccessKey.{
  AccessKeyPair, Request, Outcome, no_credentials, invalid_format, invalid_timestamp,
  timestamp_expired, invalid_key, replayed, invalid_signature, authenticated, tolerance, is_expired,
  find_key, given, expected_signature, validate_credentials, with_time, with_key, check_nonce,
  after_nonce, check_signature, authenticate, verify_nonce, with_header, after_keyword,
}

abbrev IsUsable : String → Option AccessKeyPair → Type 0
IsUsable id none = Unit
IsUsable id (some k) = (k.revoked ≡ false) × (k.access_key_id ≡ id)

find_key-IsUsable : (id : String) (ks : List AccessKeyPair) → IsUsable id (find_key id ks)
unfolding find_key
find_key-IsUsable id [] = tt
find_key-IsUsable id (k ∷ ks) =
    if-cases (IsUsable id) (k.access_key_id == id && not k.revoked) _ _
      (λ h. (ground (arith, h), eq_of_eq-true _ _ (ground (arith, h))))
      (λ h. find_key-IsUsable id ks)

module _ (d : Digests) (c : Cache String) (r : Request) (keys : List AccessKeyPair)
    (now : Instant) where
  -- A key that is not revoked signed the request, at a time near the clock's.
  pub record IsSigned (cred : Credentials) (k : AccessKeyPair) : Type 0 where
    pub request_time : ℕ
    pub read_time : int cred.timestamp ≡ some request_time
    pub not_old : now / 1000000 ≤ request_time + tolerance
    pub not_ahead : request_time ≤ now / 1000000 + tolerance
    pub key : find_key cred.access_key_id keys ≡ some k
    pub not_revoked : k.revoked ≡ false
    pub signed : expected_signature d c r cred (given cred.nonce) k ≡ cred.signature

  abbrev IfAccepted : (AccessKeyPair → Type 0) → Outcome → Type 0
  IfAccepted P (authenticated k) = P k
  IfAccepted P _ = Unit

  module _ (cred : Credentials) where
    abbrev IsRight : Outcome × c.State → Type 0
    IsRight x = IfAccepted (IsSigned cred) x.0

    signature-right :
        (t : ℕ) (k : AccessKeyPair)
        → int cred.timestamp ≡ some t
        → is_expired (now / 1000000) t ≡ false
        → find_key cred.access_key_id keys ≡ some k
        → IfAccepted (IsSigned cred) (check_signature d c r cred (given cred.nonce) k)
    unfolding check_signature is_expired
    signature-right t k read live found =
        if-cases (IfAccepted (IsSigned cred))
          (expected_signature d c r cred (given cred.nonce) k == cred.signature) _ _
          (λ same. record {
            request_time = t;
            read_time = read;
            not_old = ground (arith, live);
            not_ahead = ground (arith, live);
            key = found;
            not_revoked =
                (subst (IsUsable cred.access_key_id) found
                  (find_key-IsUsable cred.access_key_id keys)).0;
            signed = eq_of_eq-true _ _ same;
          })
          (λ other. tt)

    nonce-IsRight :
        (o : Option String) (k : AccessKeyPair) (s : c.State)
        → IfAccepted (IsSigned cred) (check_signature d c r cred o k)
        → IsRight (check_nonce d c r cred o k now s)
    unfolding check_nonce after_nonce
    nonce-IsRight none k s h = h
    nonce-IsRight (some nonce) k s h =
        if-cases IsRight (verify_nonce d c cred.access_key_id nonce now s).0 _ _ (λ fresh. h)
          (λ seen. tt)

    key-IsRight :
        (t : ℕ) (o : Option AccessKeyPair) (s : c.State)
        → int cred.timestamp ≡ some t
        → is_expired (now / 1000000) t ≡ false
        → find_key cred.access_key_id keys ≡ o
        → IsRight (with_key d c r cred o now s)
    unfolding with_key
    key-IsRight t none s read live found = tt
    key-IsRight t (some k) s read live found =
        nonce-IsRight (given cred.nonce) k s (signature-right t k read live found)

    time-IsRight :
        (o : Option ℕ) (s : c.State)
        → int cred.timestamp ≡ o
        → IsRight (with_time d c r cred o keys now s)
    unfolding with_time
    time-IsRight none s read = tt
    time-IsRight (some t) s read =
        if-cases IsRight (is_expired (now / 1000000) t) _ _ (λ late. tt)
          (λ live. key-IsRight t (find_key cred.access_key_id keys) s read live refl)

    validated : (s : c.State) → IsRight (validate_credentials d c r cred keys now s)
    unfolding validate_credentials
    validated s = time-IsRight (int cred.timestamp) s refl

    pub credentials-IsSigned :
        (k : AccessKeyPair) (s : c.State)
        → (validate_credentials d c r cred keys now s).0 ≡ authenticated k
        → IsSigned cred k
    credentials-IsSigned k s h = subst (IfAccepted (IsSigned cred)) h (validated s)

  -- Signed with the credentials that are in the header.
  abbrev pub IsSignedRequest : AccessKeyPair → Type 0
  IsSignedRequest k =
      (text : String) × (cred : Credentials) × (after_prefix "AKSK " r.authorization ≡ some text)
      × (parse_header text ≡ some cred)
      × IsSigned cred k

  weaken :
      (P Q : AccessKeyPair → Type 0) (o : Outcome)
      → ((k : AccessKeyPair) → P k → Q k)
      → IfAccepted P o
      → IfAccepted Q o
  weaken P Q (authenticated k) f h = f k h
  weaken P Q no_credentials f h = tt
  weaken P Q invalid_format f h = tt
  weaken P Q invalid_timestamp f h = tt
  weaken P Q timestamp_expired f h = tt
  weaken P Q invalid_key f h = tt
  weaken P Q replayed f h = tt
  weaken P Q invalid_signature f h = tt

  header-right :
      (text : String) (o : Option Credentials) (s : c.State)
      → after_prefix "AKSK " r.authorization ≡ some text
      → parse_header text ≡ o
      → IfAccepted IsSignedRequest (with_header d c r o keys now s).0
  unfolding with_header
  header-right text none s at parsed = tt
  header-right text (some cred) s at parsed =
      weaken (IsSigned cred) IsSignedRequest (validate_credentials d c r cred keys now s).0
        (λ k h. (text, cred, at, parsed, h)) (validated cred s)

  keyword-right :
      (o : Option String) (s : c.State)
      → after_prefix "AKSK " r.authorization ≡ o
      → IfAccepted IsSignedRequest (after_keyword d c r o keys now s).0
  unfolding after_keyword
  keyword-right none s at = tt
  keyword-right (some text) s at = header-right text (parse_header text) s at refl

  -- A request that is authenticated for a key has the credentials of that key in its header, the key
  -- is not revoked, the signature is the one of the request under the key's secret, and the timestamp
  -- is at most the tolerance away from the clock.
  pub authenticated_signed :
      (k : AccessKeyPair) (s : c.State)
      → (authenticate d c r keys now s).0 ≡ authenticated k
      → IsSignedRequest k
  unfolding authenticate
  authenticated_signed k s h =
      subst (IfAccepted IsSignedRequest) h
        (keyword-right (after_prefix "AKSK " r.authorization) s refl)
