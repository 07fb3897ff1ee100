-- ===== src/Licensing/Stored/Constrained.antt =====
-- The constraint of the table Settings in api/models.py, and an update of another key after one of a license.
use django_boilerplate.Prelude.{
  ◌≤◌, ◌≡◌, ◌≢◌, refl, ap, sym, subst, ◌∙◌, String, Bool-cases, inl, inr, Option, none, some, List,
  arith, ◌==◌, rows, length, Instant, eq_of_eq-true, ne_of_eq-false,
}
use django_boilerplate.Licensing.{Features, Org}
use django_boilerplate.Licensing.Stored.{
  Value, text, features, Setting, is_org_setting, is_global_setting, get_value, get_license,
  update_license, then_flags, with_row,
}
use django_boilerplate.Licensing.Stored.Update.{IsApart, IsUpdate, updated}
use django_boilerplate.Licensing.Stored.RoundTrip.{other_key, other_org, global-IsApart}

-- An organisation has at most one setting with a key.
abbrev pub IsConstrained : List Setting → Type 0
IsConstrained ss = (org_id key : String) → length (rows (is_org_setting org_id key) ss) ≤ 1

module _ (org_id key : String) (value : Value) (now : Instant) where
  apart_bounded :
      (other k : String) (ss ss' : List Setting)
      → IsUpdate org_id key value now ss ss'
      → IsApart org_id key value now (is_org_setting other k)
      → IsConstrained ss
      → length (rows (is_org_setting other k) ss') ≤ 1
  apart_bounded other k ss ss' u a one = rw (u.others (is_org_setting other k) a) (one other k)

  pub update-IsConstrained :
      (ss ss' : List Setting)
      → IsUpdate org_id key value now ss ss'
      → IsConstrained ss
      → IsConstrained ss'
  update-IsConstrained ss ss' u one other k = elim (Bool-cases (key == k)) [
    | inr ne ↦
        apart_bounded other k ss ss' u
          (other_key org_id key value now other k (ne_of_eq-false key k ne)) one
    | inl same_key ↦ elim (Bool-cases (other == org_id)) [
      | inr ne ↦
          apart_bounded other k ss ss' u
            (other_org org_id key value now other k (ne_of_eq-false other org_id ne)) one
      | inl same ↦
          rw (eq_of_eq-true other org_id same, sym (eq_of_eq-true key k same_key))
            (omega (arith, u.single))
    ]
  ]

  -- An update of a key that is none of a license leaves every license as it is.
  module _ (loads : String → Option Features) (default_tier default_flags : Value) where
    value_kept :
        (other k : String) (default : Value) (ss ss' : List Setting)
        → IsUpdate org_id key value now ss ss'
        → key ≢ k
        → get_value k other default ss' ≡ get_value k other default ss
    unfolding get_value
    value_kept other k default ss ss' u ne =
        rw
          (
            u.others (is_org_setting other k) (other_key org_id key value now other k ne),
            u.others (is_global_setting k) (global-IsApart org_id key value now k),
          )
          refl

    pub license_kept :
        (other : String) (ss ss' : List Setting)
        → IsUpdate org_id key value now ss ss'
        → key ≢ "license_tier"
        → key ≢ "feature_flags"
        → get_license loads default_tier default_flags other ss'
          ≡ get_license loads default_tier default_flags other ss
    unfolding get_license
    license_kept other ss ss' u no_tier no_flags =
        rw
          (
            value_kept other "license_tier" default_tier ss ss' u no_tier,
            value_kept other "feature_flags" default_flags ss ss' u no_flags,
          )
          refl

settings_or : List Setting → Option (List Setting × Org) → List Setting
settings_or ss none = ss
settings_or ss (some (x, o)) = x

-- An update of a license keeps the constraint.
pub update_license-IsConstrained :
    (org_id tier : String) (flags : Features) (now : Instant) (ss ss' : List Setting) (o o' : Org)
    → IsConstrained ss
    → update_license org_id tier flags now ss o ≡ some (ss', o')
    → IsConstrained ss'
unfolding update_license then_flags with_row settings_or
update_license-IsConstrained org_id tier flags now ss ss' o o' one e =
    let (s1, e1, u1) =
      updated org_id "license_tier" (text tier) now ss (one org_id "license_tier") in
    let one1 = update-IsConstrained org_id "license_tier" (text tier) now ss s1 u1 one in
    let (s2, e2, u2) =
      updated org_id "feature_flags" (features flags) now s1 (one1 org_id "feature_flags") in
    let same : s2 ≡ ss' = ap (settings_or ss) (
      sym (ap (λ x. then_flags x org_id tier flags now o) e1 ∙ ap (λ x. with_row x tier flags o) e2)
      ∙ e) in
    subst IsConstrained same
      (update-IsConstrained org_id "feature_flags" (features flags) now s1 s2 u2 one1)
