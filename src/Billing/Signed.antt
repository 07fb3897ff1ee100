-- ===== src/Billing/Signed.antt =====
-- Where Stripe is enabled, only a body that is signed with the secret reaches a handler.
use django_boilerplate.Prelude.{
  eq_of_eq-true, ℕ, ◌+◌, ◌≤◌, ◌≡◌, ◌≢◌, ◌⊎◌, refl, ap, sym, inl, inr, String, ◌+++◌, Bool, true,
  false, Option, none, some, ◌==◌, arith, eq_iff, Bool-cases, Dict, lookup, Instant, seconds,
}
use django_boilerplate.Crypto.{Digests}
use django_boilerplate.Billing.{Database, Settings, Event}
use django_boilerplate.Billing.Signature.{
  decimal, elements, or_none, timestamp_of, check, check_elements, verify_stripe_signature,
}
use django_boilerplate.Billing.Handlers.{not_configured, invalid_signature, post}

module _ (d : Digests) (tolerance : ℕ) (payload secret : String) (now : Instant) where
  -- The time and the signature of a header are right.
  pub record IsRight (m : Dict String) : Type 0 where
    pub timestamp : ℕ
    pub timestamp_given : timestamp_of (lookup "t" m) ≡ some timestamp
    pub timestamp-ne-zero : timestamp ≢ 0
    pub recent : now ≤ seconds timestamp + seconds tolerance
    pub begun : seconds timestamp ≤ now + seconds tolerance
    pub signed :
        lookup "v1" m ≡ some (d.hmac_sha256 secret (decimal timestamp +++ ("." +++ payload)))

  pub IsSigned : (sig_header : String) → Type 0
  IsSigned sig_header =
      (secret ≢ "") × ((m : Dict String) × (elements sig_header ≡ some m) × IsRight m)

  given_signature :
      (v : Option String) (s : String) → (or_none v == "") ≡ false → s ≡ or_none v → v ≡ some s
  given_signature none s filled e = ground (arith, filled)
  given_signature (some v) s filled e = ap some (sym e)

  check-IsRight :
      (m : Dict String) (o : Option ℕ)
      → timestamp_of (lookup "t" m) ≡ o
      → check d tolerance payload secret now o (or_none (lookup "v1" m)) ≡ true
      → IsRight m
  unfolding check
  check-IsRight m none e h = ground (arith, h)
  check-IsRight m (some t) e h = record {
    timestamp = t;
    timestamp_given = e;
    timestamp-ne-zero = ground (arith, h);
    recent = ground (arith, h);
    begun = ground (arith, h);
    signed =
        given_signature (lookup "v1" m) (d.hmac_sha256 secret (decimal t +++ ("." +++ payload)))
          (ground (arith, h))
          (eq_of_eq-true (d.hmac_sha256 secret (decimal t +++ ("." +++ payload)))
            (or_none (lookup "v1" m)) (ground (arith, h)));
  }

  elements-IsRight :
      (o : Option (Dict String))
      → check_elements d tolerance payload secret now o ≡ true
      → (m : Dict String) × (o ≡ some m) × IsRight m
  unfolding check_elements
  elements-IsRight none h = ground (arith, h)
  elements-IsRight (some m) h = (m, refl, check-IsRight m (timestamp_of (lookup "t" m)) refl h)

  verify-IsSigned :
      (sig_header : String)
      → verify_stripe_signature d tolerance payload secret now sig_header ≡ true
      → IsSigned sig_header
  unfolding verify_stripe_signature IsSigned
  verify-IsSigned sig_header h = (
    ground (arith, h, eq_iff secret ""),
    elements-IsRight (elements sig_header) (ground (arith, h)),
  )

module _ (is_uuid : String → Bool) (st : Settings) (iso : String) (d : Digests)
    (parse : String → Option Event) where
  -- Stripe is enabled. A request to its webhook then changes nothing and is answered that the webhook is not
  -- configured or that the signature is invalid, or else the header holds, under the webhook's secret,
  -- which is not empty, the signature of the body with a time that is at most five minutes from now.
  pub unsigned_refused :
      (sig_header raw_body : String) (now : Instant) (db : Database)
      → st.stripe_enabled ≡ true
      → (post is_uuid st now iso d parse sig_header raw_body db ≡ (not_configured, db))
        ⊎ ((post is_uuid st now iso d parse sig_header raw_body db ≡ (invalid_signature, db))
            ⊎ IsSigned d 300 raw_body st.stripe_webhook_secret now sig_header)
  unfolding post
  unsigned_refused sig_header raw_body now db enabled =
      elim (Bool-cases (st.stripe_webhook_secret == "")) [
        | inl unset ↦ inl (ground (arith, enabled, unset))
        | inr set ↦
            elim (Bool-cases
              (verify_stripe_signature d 300 raw_body st.stripe_webhook_secret now sig_header)) [
                | inl right ↦ inr (
                    inr (
                      verify-IsSigned d 300 raw_body st.stripe_webhook_secret now sig_header right))
                | inr wrong ↦ inr (inl (ground (arith, enabled, set, wrong)))
              ]
      ]
