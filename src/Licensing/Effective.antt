-- ===== src/Licensing/Effective.antt =====
-- Which value of a feature an organisation or a division gets.
use django_boilerplate.Prelude.{
  ◌≡◌, refl, String, Option, none, [], ◌∷◌, arith, ◌==◌, lookup, or_else, merge, lookup-merge,
  if◌then◌else◌,
}
use django_boilerplate.Licensing.{
  Feature, Features, Tiers, Org, Division, License, inherit, independent, or_text, tier_defaults,
  with_tier, with_flags, is_independent, get_effective_license, get_division_license,
}

-- The base of a feature, before the division's own flags: the tier's defaults, under the
-- organisation's flags unless the division bills for itself.
abbrev pub base_feature : Tiers → Org → Division → String → Option Feature
base_feature tiers org d k = elim d.billing_mode [
  | inherit ↦
      or_else (lookup k org.feature_flags)
        (lookup k (tier_defaults tiers (or_text org.license_tier "free")))
  | independent ↦
      if d.license_tier == ""
      then or_else (lookup k org.feature_flags)
          (lookup k (tier_defaults tiers (or_text org.license_tier "free")))
      else lookup k (tier_defaults tiers d.license_tier)
]

abbrev pub base_tier : Org → Division → String
base_tier org d = elim d.billing_mode [
  | inherit ↦ or_text org.license_tier "free"
  | independent ↦ if d.license_tier == "" then or_text org.license_tier "free" else d.license_tier
]

lookup-with_flags :
    (k : String) (flags : Features) (l : License)
    → lookup k (with_flags flags l).features ≡ or_else (lookup k flags) (lookup k l.features)
unfolding with_flags lookup
lookup-with_flags k [] l = refl
lookup-with_flags k (f ∷ flags) l = lookup-merge k l.features (f ∷ flags)

base-inherit :
    (tiers : Tiers) (org : Org) (d : Division) (k : String)
    → lookup k
        (with_tier tiers d (record {
          license_tier = or_text org.license_tier "free";
          features =
              merge (tier_defaults tiers (or_text org.license_tier "free")) org.feature_flags;
        })).features
      ≡ base_feature tiers org d k
unfolding with_tier is_independent
base-inherit tiers org d k = ground (
  arith,
  lookup-merge k (tier_defaults tiers (or_text org.license_tier "free")) org.feature_flags,
)

-- For a division, its own flag wins; otherwise a division that bills for itself with a tier of its own
-- gets that tier's default whatever the organisation's flags say, and any other division gets the
-- organisation's flag or else the default of the organisation's tier. The tier is the division's own
-- in the same cases.
pub division_license :
    (tiers : Tiers) (d : Division)
    → ((k : String)
        → lookup k (get_division_license tiers d).features
          ≡ or_else (lookup k d.feature_flags) (base_feature tiers d.org d k))
      × ((get_division_license tiers d).license_tier ≡ base_tier d.org d)
unfolding get_division_license
division_license tiers d = (
  λ k. rw (lookup-with_flags k d.feature_flags) (rw (base-inherit tiers d.org d k)),
  ground arith,
)

-- Without a division the organisation's flag wins over the default of its tier, and a missing tier is
-- the free one.
pub org_license :
    (tiers : Tiers) (org : Org)
    → ((k : String)
        → lookup k (get_effective_license tiers org none).features
          ≡ or_else
              (lookup k org.feature_flags)
              (lookup k (tier_defaults tiers (or_text org.license_tier "free"))))
      × ((get_effective_license tiers org none).license_tier ≡ or_text org.license_tier "free")
unfolding get_effective_license
org_license tiers org = (
  λ k. lookup-merge k (tier_defaults tiers (or_text org.license_tier "free")) org.feature_flags,
  refl,
)
