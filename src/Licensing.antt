-- ===== src/Licensing.antt =====
-- api/licensing.py, `Settings.get_value` of api/models.py, and the quota of API keys of
-- api/throttling_api_keys.py: tiers, feature flags and their overrides. A feature's value is a JSON
-- scalar. `STRIPE_TIER_FEATURES` is an argument.
pub mod Effective
pub mod Limits
pub mod Stored
mod Tests
use django_boilerplate.Prelude.{
  ℕ, String, Bool, true, false, not, ◌&&◌, Option, none, some, List, [], ◌∷◌, ◌==◌, ℤ, pos, Dict,
  lookup, put, merge, if◌then◌else◌,
}

pub data Feature : Type 0 where
  null : Feature
  flag : Bool → Feature
  num : ℤ → Feature
  text : String → Feature

abbrev pub Features : Type 0
Features = Dict Feature

abbrev pub Tiers : Type 0
Tiers = Dict Features

pub data BillingMode : Type 0 where
  inherit independent : BillingMode

pub record Org : Type 0 where
  pub license_tier : String
  pub feature_flags : Features

pub record Division : Type 0 where
  pub org : Org
  pub billing_mode : BillingMode
  pub license_tier : String
  pub feature_flags : Features

pub record License : Type 0 where
  pub license_tier : String
  pub features : Features

-- `x or y`, for a text.
abbrev pub or_text : String → String → String
or_text x y = if x == "" then y else x

abbrev pub is_empty {ℓ} : {A : Type ℓ} → List A → Bool
is_empty [] = true
is_empty (x ∷ xs) = false

abbrev or_features : Option Features → Features → Features
or_features none d = d
or_features (some f) d = f

-- `tier_features.get(tier, tier_features.get("free", {}))`
unfoldable pub tier_defaults : Tiers → String → Features
tier_defaults tiers tier = or_features (lookup tier tiers) (or_features (lookup "free" tiers) [])

is_independent : BillingMode → Bool
is_independent inherit = false
is_independent independent = true

-- Division has independent billing: its tier is the base.
with_tier : Tiers → Division → License → License
with_tier tiers d license =
    if is_independent d.billing_mode && not (d.license_tier == "")
    then record { license_tier = d.license_tier; features = tier_defaults tiers d.license_tier }
    else license

with_flags : Features → License → License
with_flags flags license =
    if is_empty flags then license else record license { features = merge license.features flags }

override : Tiers → Option Division → License → License
override tiers none license = license
override tiers (some d) license = with_flags d.feature_flags (with_tier tiers d license)

unfoldable pub get_effective_license : Tiers → Org → Option Division → License
unfolding override with_tier with_flags is_independent tier_defaults
get_effective_license tiers org division =
    let base_tier = or_text org.license_tier "free" in
    override tiers division (record {
      license_tier = base_tier;
      features = merge (tier_defaults tiers base_tier) org.feature_flags;
    })

unfoldable pub get_division_license : Tiers → Division → License
unfolding get_effective_license
get_division_license tiers division = get_effective_license tiers division.org (some division)
