-- ===== src/Licensing/Limits.antt =====
-- A limit that an organisation's tier sets and its feature flags override: `get_rate_limit` of
-- api/throttling.py and `get_user_api_key_quota` of api/throttling_api_keys.py.
use django_boilerplate.Prelude.{
  ◌≡◌, ◌≢◌, refl, ℕ, zero, suc, negsuc, String, true, false, Option, none, some, [], pos, lookup,
}
use django_boilerplate.Licensing.{Feature, null, num, flag, text, Features, Tiers, Org}

abbrev features_of : Option Features → Features
features_of none = []
features_of (some f) = f

abbrev feature_or : Option Feature → Feature → Feature
feature_or none d = d
feature_or (some f) d = f

-- `STRIPE_TIER_FEATURES.get("free", {}).get(name, default)`
free_default : Tiers → String → Feature → Feature
free_default tiers name default =
    feature_or (lookup name (features_of (lookup "free" tiers))) default

-- `None` and a missing key are the same to `tier_features.get(name)`.
unless_none : Option Feature → Feature → Feature
unless_none none d = d
unless_none (some null) d = d
unless_none (some f) d = f

unless_none-some : (f d : Feature) → f ≢ null → unless_none (some f) d ≡ f
unfolding unless_none
unless_none-some null d ne = absurd (ne refl)
unless_none-some (flag b) d ne = refl
unless_none-some (num z) d ne = refl
unless_none-some (text t) d ne = refl

flag_or_tier : Option Feature → Tiers → String → Feature → Org → Feature
flag_or_tier (some f) tiers name default org = f
flag_or_tier none tiers name default org =
    unless_none (lookup name (features_of (lookup org.license_tier tiers)))
      (free_default tiers name default)

-- `org` is none if no organisation was found.
limit_of : Tiers → String → Feature → Option Org → Feature
limit_of tiers name default none = free_default tiers name default
limit_of tiers name default (some org) =
    flag_or_tier (lookup name org.feature_flags) tiers name default org

-- The outer option is the user, none if not authenticated; the inner one is the organisation of the
-- first membership.
abbrev org_of : Option (Option Org) → Option Org
org_of none = none
org_of (some o) = o

unfoldable pub get_rate_limit : Tiers → Option Org → Feature
unfolding limit_of flag_or_tier unless_none free_default
get_rate_limit tiers org = limit_of tiers "api_rate_limit" (num (pos 100)) org

unfoldable pub get_user_api_key_quota : Tiers → Option (Option Org) → Feature
unfolding limit_of flag_or_tier unless_none free_default
get_user_api_key_quota tiers user = limit_of tiers "max_api_keys" (num (pos 5)) (org_of user)

-- What a limit says to the code that reads it: `None` or -1, a number, or a value that does not
-- compare with a number (a TypeError). Python's True and False count as 1 and 0.
pub data Limit : Type 0 where
  unlimited : Limit
  at_most : ℕ → Limit
  below_zero : Limit
  no_number : Limit

unfoldable pub limit_of_feature : Feature → Limit
limit_of_feature null = unlimited
limit_of_feature (num (pos n)) = at_most n
limit_of_feature (num (negsuc zero)) = unlimited
limit_of_feature (num (negsuc (suc n))) = below_zero
limit_of_feature (flag true) = at_most 1
limit_of_feature (flag false) = at_most 0
limit_of_feature (text t) = no_number

-- The organisation's flag decides, whatever the tier says; without one the tier's own entry; and
-- where that is missing or None, and for no organisation, the free tier's, or 100.
pub get_rate_limit_lem :
    (tiers : Tiers) (org : Org)
    → (get_rate_limit tiers none
        ≡ feature_or (lookup "api_rate_limit" (features_of (lookup "free" tiers))) (num (pos 100)))
      × ((f : Feature)
          → lookup "api_rate_limit" org.feature_flags ≡ some f
          → get_rate_limit tiers (some org) ≡ f)
      × (lookup "api_rate_limit" org.feature_flags ≡ none
          → (f : Feature) → f ≢ null
          → lookup "api_rate_limit" (features_of (lookup org.license_tier tiers)) ≡ some f
          → get_rate_limit tiers (some org) ≡ f)
unfolding get_rate_limit
get_rate_limit_lem tiers org =
    (refl, λ f e. rw e, λ e f ne e'. rw (e, e') (unless_none-some f _ ne))
