-- ===== src/Licensing/Stored/RoundTrip.antt =====
-- `get_license` after `update_license`, api/licensing.py.
use django_boilerplate.Prelude.{
  ◌≤◌, ◌≡◌, ◌≢◌, refl, ap, sym, ◌∙◌, String, true, false, Option, none, some, List, arith, eq_iff,
  rows, length, Instant,
}
use django_boilerplate.Licensing.{Features, Org}
use django_boilerplate.Licensing.Stored.{
  Value, text, features, Setting, is_org, is_org_setting, is_global_setting, newest, value_or,
  get_value, features_of, get_license, then_flags, with_row, update_license,
}
use django_boilerplate.Licensing.Stored.Update.{IsApart, IsUpdate, updated}

module _ (org_id key : String) (value : Value) (now : Instant) where
  pub other_key :
      (other k : String) → key ≢ k → IsApart org_id key value now (is_org_setting other k)
  other_key other k ne = record {
    no_value = λ s. refl;
    apart = λ s own. ground (arith, own, eq_iff s.key key, eq_iff s.key k);
  }

  is_org-other :
      (other : String) (o : Option String)
      → other ≢ org_id
      → is_org o org_id ≡ true
      → is_org o other ≡ false
  is_org-other other none ne own = refl
  is_org-other other (some x) ne own = ground (arith, own, eq_iff x org_id, eq_iff x other)

  pub other_org :
      (other k : String) → other ≢ org_id → IsApart org_id key value now (is_org_setting other k)
  other_org other k ne = record {
    no_value = λ s. refl;
    apart = λ s own. ground (arith, own, is_org-other other s.org_id ne);
  }

  pub global-IsApart : (k : String) → IsApart org_id key value now (is_global_setting k)
  global-IsApart k = record { no_value = λ s. refl; apart = λ s own. ground (arith, own) }

  get_value-kept :
      (other k : String) (default : Value) (ss ss' : List Setting)
      → IsUpdate org_id key value now ss ss'
      → other ≢ org_id
      → get_value k other default ss' ≡ get_value k other default ss
  unfolding get_value
  get_value-kept other k default ss ss' u ne =
      ap (λ xs. value_or (newest xs) (value_or (newest (rows (is_global_setting k) ss')) default))
        (u.others (is_org_setting other k) (other_org other k ne))
      ∙ ap
          (λ xs.
            value_or (newest (rows (is_org_setting other k) ss)) (value_or (newest xs) default))
          (u.others (is_global_setting k) (global-IsApart k))

  get_value-own :
      (default : Value) (ss ss' : List Setting)
      → IsUpdate org_id key value now ss ss'
      → get_value key org_id default ss' ≡ value
  unfolding get_value
  get_value-own default ss ss' u = u.read_back _

tier-ne-flags : ◌≢◌ {A = String} "license_tier" "feature_flags"
tier-ne-flags = ground (arith, eq_iff "license_tier" "feature_flags")

flags-ne-tier : ◌≢◌ {A = String} "feature_flags" "license_tier"
flags-ne-tier e = tier-ne-flags (sym e)

module _ (loads : String → Option Features) (default_tier default_flags : Value) where
  -- Where an organisation has at most one setting for its tier and one for its flags, as the table's
  -- constraint asks, an update of its license goes through. The license that is read afterwards
  -- is the one that was given, the organisation's row has it too, and the license that is read for any
  -- other organisation is as it was.
  pub license_roundtrip :
      (org_id tier : String) (flags : Features) (now : Instant) (ss : List Setting) (o : Org)
      → length (rows (is_org_setting org_id "license_tier") ss) ≤ 1
      → length (rows (is_org_setting org_id "feature_flags") ss) ≤ 1
      → (ss' : List Setting) × (update_license org_id tier flags now ss o
          ≡ some (ss', record o { license_tier = tier; feature_flags = flags }))
        × (get_license loads default_tier default_flags org_id ss' ≡ (text tier, flags))
        × ((other : String)
            → other ≢ org_id
            → get_license loads default_tier default_flags other ss'
              ≡ get_license loads default_tier default_flags other ss)
  unfolding update_license then_flags with_row get_license features_of get_value
  license_roundtrip org_id tier flags now ss o one_tier one_flags =
      let (s1, e1, u1) = updated org_id "license_tier" (text tier) now ss one_tier in
      let flags_same =
        u1.others (is_org_setting org_id "feature_flags")
          (other_key org_id "license_tier" (text tier) now org_id "feature_flags" tier-ne-flags) in
      let (s2, e2, u2) =
        updated org_id "feature_flags" (features flags) now s1 (rw flags_same one_flags) in
      let tier_same = u2.others (is_org_setting org_id "license_tier") (
        other_key org_id "feature_flags" (features flags) now org_id "license_tier"
          flags-ne-tier) in
      let tier_read : get_value "license_tier" org_id default_tier s2 ≡ text tier =
        ap
          (λ xs.
            value_or (newest xs)
              (value_or (newest (rows (is_global_setting "license_tier") s2)) default_tier))
          tier_same
        ∙ u1.read_back
            (value_or (newest (rows (is_global_setting "license_tier") s2)) default_tier) in
      let flags_read =
        get_value-own org_id "feature_flags" (features flags) now default_flags s1 s2 u2 in
      (
        s2,
        ap (λ x. then_flags x org_id tier flags now o) e1 ∙ ap (λ x. with_row x tier flags o) e2,
        λ i. (tier_read i, features_of loads (flags_read i)),
        λ other ne.
            let kept : (k : String) (default : Value)
                → get_value k other default s2 ≡ get_value k other default ss =
              λ k default.
                get_value-kept org_id "feature_flags" (features flags) now other k default s1 s2 u2
                  ne
                ∙ get_value-kept org_id "license_tier" (text tier) now other k default ss s1 u1
                    ne in
            λ i. (
              kept "license_tier" default_tier i,
              features_of loads (kept "feature_flags" default_flags i),
            ),
      )
