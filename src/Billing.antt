-- ===== src/Billing.antt =====
-- What the webhook of Stripe in api/views_licensing.py works on: the rows it looks up, and the licenses it
-- sets by api/licensing.py, api/stripe_client.py and api/views_user_billing.py. `is_uuid` says
-- whether a text is the key of an organisation; keys are in the form in which they are stored.
pub mod Signature
pub mod Handlers
pub mod Signed
pub mod Licensed
mod Tests
use django_boilerplate.Prelude.{
  ℕ, zero, suc, String, ◌+++◌, Bool, true, false, not, ◌&&◌, ◌||◌, Option, none, some, List, [],
  ◌∷◌, ◌==◌, eqb, first, rows, lookup, Dict, starts_with, int, if◌then◌else◌, Instant,
}
use Prim.Native.String
use django_boilerplate.Crypto.{Digests}
use django_boilerplate.Rows.{change}
use django_boilerplate.Licensing.{Features, Tiers, text}
use django_boilerplate.Licensing
use django_boilerplate.Licensing.Stored.{Setting, features, update_or_create, update_license}
use django_boilerplate.Billing.Signature.{or_none, verify_stripe_signature}

pub record Org : Type 0 where
  pub id : String
  pub license : Licensing.Org
  pub stripe_customer_id : Option String
  pub stripe_subscription_id : Option String

pub record Profile : Type 0 where
  pub user_id : ℕ
  pub license_tier : String
  pub feature_flags : Features
  pub stripe_customer_id : Option String
  pub stripe_subscription_id : Option String

pub record Database : Type 0 where
  pub orgs : List Org
  pub profiles : List Profile
  pub settings : List Setting

pub record Settings : Type 0 where
  pub stripe_enabled : Bool
  pub stripe_webhook_secret : String
  pub stripe_price_tier_map : Dict String
  pub stripe_tier_features : Tiers

-- An event with its object: a checkout session, a subscription or an invoice.
pub record Event : Type 0 where
  pub event_type : String
  pub id : Option String
  pub metadata_type : Option String
  pub metadata_org_id : Option String
  pub customer : Option String
  pub subscription : Option String
  pub status : Option String
  pub price_id : Option String

-- How a handler ends, with the tables after it.
pub data Ending : Type 0 where
  handled : Ending
  raised : Ending

-- `objects.get`: a row, no row, or an exception that is not `DoesNotExist`.
pub data Found (A : Type 0) : Type 0 where
  found : A → Found A
  missing : Found A
  failed : Found A

unfoldable pub one_of : {A : Type 0} → List A → Found A
one_of [] = missing
one_of (x ∷ []) = found x
one_of (x ∷ y ∷ more) = failed

-- `map_price_to_tier`
unfoldable pub map_price_to_tier : Dict String → String → String
map_price_to_tier prices price_id = elim (lookup price_id prices) [ none ↦ "free" | some t ↦ t ]

or_free : Option Features → Option Features → Option Features
or_free own none = none
or_free none (some f) = some f
or_free (some own) (some f) = some own

-- `get_tier_features`, none where the settings have no tier `free`.
unfoldable pub get_tier_features : Tiers → String → Option Features
unfolding or_free
get_tier_features tiers tier = or_free (lookup tier tiers) (lookup "free" tiers)

-- `text.replace("user_", "")`
unfoldable pub remove_from : (skipped : ℕ) → String → String
remove_from skipped String.[] = String.[]
remove_from (suc n) (String.◌∷◌ c s) = remove_from n s
remove_from zero (String.◌∷◌ c s) =
    let there = starts_with (String.◌∷◌ c s) "user_" in
    let without = remove_from 4 s in
    let kept = remove_from 0 s in if there then without else String.◌∷◌ c kept

abbrev pub is_text : Option String → String → Bool
is_text none s = false
is_text (some t) s = t == s

-- `if customer_id`
abbrev pub is_given : Option String → Bool
is_given none = false
is_given (some s) = not (s == "")

abbrev pub is_user_id : (org_id : String) → Bool
is_user_id org_id = starts_with org_id "user_"

abbrev pub set_org : String → (Org → Org) → Database → Database
set_org id f db = record db { orgs = change (λ o. o.id) (λ o. o.id) id f db.orgs }

unfoldable pub change_profile : ℕ → (Profile → Profile) → List Profile → List Profile
change_profile id f [] = []
change_profile id f (p ∷ ps) = (if eqb p.user_id id then f p else p) ∷ change_profile id f ps

abbrev pub sync_status : (status iso : String) → Features
sync_status status iso = ("status", text status) ∷ ("synced_at", text iso) ∷ []

module _ (is_uuid : String → Bool) (st : Settings) (now : Instant) (iso : String) where
  pub by_customer : (customer_id : Option String) → Database → Found Org
  by_customer none db = missing
  by_customer (some c) db =
      if c == "" then missing else one_of (rows (λ o. is_text o.stripe_customer_id c) db.orgs)

  unfoldable pub get_org : String → Database → Found Org
  unfolding one_of
  get_org id db = if is_uuid id then one_of (rows (λ o. o.id == id) db.orgs) else failed

  unfoldable pub or_customer : Found Org → Option String → Database → Found Org
  or_customer (found o) customer db = found o
  or_customer missing customer db = by_customer customer db
  or_customer failed customer db = failed

  -- `_find_org`; Django raises a ValidationError on a key that is no UUID.
  unfoldable pub find_org : (org_id customer_id : Option String) → Database → Found Org
  unfolding by_customer get_org or_customer one_of
  find_org org_id customer db =
      if is_given org_id && not (is_user_id (or_none org_id))
      then or_customer (get_org (or_none org_id) db) customer db
      else by_customer customer db

  profile_by_customer : Option String → Database → Found Profile
  profile_by_customer none db = missing
  profile_by_customer (some c) db =
      if c == "" then missing else one_of (rows (λ p. is_text p.stripe_customer_id c) db.profiles)

  get_profile : Option ℕ → Database → Found Profile
  get_profile none db = failed
  get_profile (some n) db = one_of (rows (λ p. eqb p.user_id n) db.profiles)

  profile_or_customer : Found Profile → Option String → Database → Found Profile
  profile_or_customer (found p) customer db = found p
  profile_or_customer missing customer db = profile_by_customer customer db
  profile_or_customer failed customer db = failed

  -- `_find_user_profile`; a user id that is no number raises a ValueError.
  unfoldable pub find_user_profile :
      (user_id customer_id : Option String) → Database → Found Profile
  unfolding profile_by_customer get_profile profile_or_customer one_of
  find_user_profile user_id customer db =
      if is_given user_id
      then profile_or_customer (get_profile (int (or_none user_id)) db) customer db
      else profile_by_customer customer db

  unfoldable pub then_settings : Option (List Setting) → Database → Ending × Database
  then_settings none db = (raised, db)
  then_settings (some ss) db = (handled, record db { settings = ss })

  -- `set_stripe_sync_status`. The table has at most one setting of an organisation with a key.
  unfoldable pub set_stripe_sync_status : Org → (status : String) → Database → Ending × Database
  unfolding then_settings
  set_stripe_sync_status o status db =
      then_settings
        (update_or_create o.id "stripe_sync_status" (features (sync_status status iso)) now
          db.settings)
        db

  unfoldable pub then_sync :
      Option (List Setting × Licensing.Org)
      → (subscription : Option String) → (status : String) → Org
      → Database
      → Ending × Database
  then_sync none subscription status o db = (raised, db)
  then_sync (some (ss, license)) subscription status o db = set_stripe_sync_status o status (
      set_org o.id (λ x. record x { license = license; stripe_subscription_id = subscription })
        (record db { settings = ss }))

  unfoldable pub with_features :
      Option Features
      → (tier : String) → (subscription : Option String) → (status : String) → Org
      → Database
      → Ending × Database
  with_features none tier subscription status o db = (raised, db)
  with_features (some f) tier subscription status o db =
      then_sync (update_license o.id tier f now db.settings o.license) subscription status o db

  -- `update_license`, the subscription and `set_stripe_sync_status`.
  unfoldable pub set_org_license :
      (tier : String)
      → (subscription : Option String) → (status : String) → Org
      → Database
      → Ending × Database
  unfolding then_sync with_features
  set_org_license tier subscription status o db =
      with_features (get_tier_features st.stripe_tier_features tier) tier subscription status o db

  with_user_features :
      Option Features
      → (tier : String) → (subscription : Option String) → Profile
      → Database
      → Ending × Database
  with_user_features none tier subscription p db = (raised, db)
  with_user_features (some f) tier subscription p db = (
    handled,
    record db {
      profiles =
          change_profile p.user_id
            (λ x. record x {
              license_tier = tier;
              feature_flags = f;
              stripe_subscription_id = subscription;
            })
            db.profiles;
    },
  )

  -- `update_user_license` and the subscription.
  unfoldable pub set_user_license :
      (tier : String) → (subscription : Option String) → Profile → Database → Ending × Database
  unfolding with_user_features change_profile
  set_user_license tier subscription p db =
      with_user_features (get_tier_features st.stripe_tier_features tier) tier subscription p db
