-- ===== src/Billing/Tests.antt =====
-- A signed cancellation of an organisation's subscription, and an unsigned one.
use django_boilerplate.Prelude.{
  ◌≡◌, ◌≢◌, ◌⊎◌, refl, String, Bool, true, false, Option, none, some, [], ◌∷◌, arith, eq_iff,
  seconds, split, lookup, put, int, after_prefix,
}
use django_boilerplate.Crypto.Toy.{toy}
use django_boilerplate.Licensing.{Features, flag}
use django_boilerplate.Licensing.Stored
use django_boilerplate.Licensing.Stored.Constrained.{IsConstrained}
use django_boilerplate.Billing.{Org, Database, Settings, Event, handled, get_tier_features}
use django_boilerplate.Billing.Signature.{verify_stripe_signature, elements, key_and_value, decimal}
use django_boilerplate.Billing.Handlers.{not_configured, invalid_signature, handle, post}
use django_boilerplate.Billing.Signed.{IsSigned, unsigned_refused}
use django_boilerplate.Billing.Licensed.{cancelled, IsLicensed, subscription-IsLicensed}

abbrev settings : Settings
settings = record {
  stripe_enabled = true;
  stripe_webhook_secret = "whsec";
  stripe_price_tier_map = ("price_pro", "pro") ∷ [];
  stripe_tier_features = ("free", ("sso", flag false) ∷ []) ∷ ("pro", ("sso", flag true) ∷ []) ∷ [];
}

abbrev acme : Org
acme = record {
  id = "acme";
  license = record { license_tier = "pro"; feature_flags = ("sso", flag true) ∷ [] };
  stripe_customer_id = some "cus_1";
  stripe_subscription_id = some "sub_2";
}

abbrev database : Database
database = record { orgs = acme ∷ []; profiles = []; settings = [] }

abbrev cancellation : Event
cancellation = record {
  event_type = "customer.subscription.deleted";
  id = some "sub_1";
  metadata_type = none;
  metadata_org_id = some "acme";
  customer = some "cus_1";
  subscription = none;
  status = some "canceled";
  price_id = none;
}

abbrev any_id : String → Bool
any_id s = true

abbrev no_json : String → Option Features
no_json s = none

abbrev read : String → Option Event
read s = some cancellation

abbrev header : String
header = "t=100,v1=whsec100.body#"

signed_body : verify_stripe_signature toy 300 "body" "whsec" (seconds 130) header ≡ true
unfolding verify_stripe_signature elements key_and_value decimal split lookup put int
signed_body = refl

late_body : verify_stripe_signature toy 300 "body" "whsec" (seconds 401) header ≡ false
unfolding verify_stripe_signature elements key_and_value decimal split lookup put int
late_body = refl

unsigned :
    (post any_id settings (seconds 130) "now" toy read "t=100,v1=x" "body" database).0
    ≡ invalid_signature
unfolding post verify_stripe_signature elements key_and_value decimal split lookup put int
unsigned = refl

unsigned_refused_example :
    (post any_id settings (seconds 130) "now" toy read header "body" database
      ≡ (not_configured, database))
    ⊎ ((post any_id settings (seconds 130) "now" toy read header "body" database
          ≡ (invalid_signature, database))
        ⊎ IsSigned toy 300 "body" "whsec" (seconds 130) header)
unsigned_refused_example =
    unsigned_refused any_id settings "now" toy read header "body" (seconds 130) database refl

constrained : IsConstrained []
constrained org_id key = omega arith

named : ◌≢◌ {A = String} "acme" ""
named = ground (arith, eq_iff "acme" "")

free_features :
    get_tier_features settings.stripe_tier_features "free" ≡ some (("sso", flag false) ∷ [])
unfolding get_tier_features lookup
free_features = refl

subscription-IsLicensed_example :
    (after : Database) × (handle any_id settings (seconds 130) "now" cancellation database
      ≡ (handled, after))
    × IsLicensed no_json
        (Stored.text "free")
        (Stored.features [])
        acme
        "free"
        (("sso", flag false) ∷ [])
        none
        database
        after
unfolding after_prefix
subscription-IsLicensed_example =
    subscription-IsLicensed no_json (Stored.text "free") (Stored.features []) any_id settings
      (seconds 130) "now" cancellation "acme" "free" none (("sso", flag false) ∷ []) acme database
      (cancelled refl) free_features constrained refl refl named refl refl
