-- ===== src/Licensing/Stored.antt =====
-- `Settings` of api/models.py, and `get_license` and `update_license` of api/licensing.py. An organisation
-- stands by its id; `loads` is `json.loads`, none where it raises.
pub mod Update
pub mod RoundTrip
pub mod Constrained
use django_boilerplate.Prelude.{
  ℕ, String, Bool, true, false, not, ◌&&◌, Option, none, some, List, [], ◌∷◌, ◌++◌, ◌==◌, ltb, rows,
  if◌then◌else◌, Instant,
}
use django_boilerplate.Licensing.{Features, Org}

pub data Scope : Type 0 where
  global org : Scope

pub data Value : Type 0 where
  text : String → Value
  features : Features → Value

pub record Setting : Type 0 where
  pub scope : Scope
  pub org_id : Option String
  pub key : String
  pub value : Value
  pub created_at : Instant

abbrev pub is_global_scope : Scope → Bool
is_global_scope global = true
is_global_scope org = false

abbrev pub is_org : Option String → String → Bool
is_org none id = false
is_org (some o) id = o == id

abbrev pub is_no_org : Option String → Bool
is_no_org none = true
is_no_org (some o) = false

-- `filter(scope=ORG, org=org, key=key)` and `filter(scope=GLOBAL, org__isnull=True, key=key)`
abbrev pub is_org_setting : (org_id key : String) → Setting → Bool
is_org_setting org_id key s =
    not (is_global_scope s.scope) && is_org s.org_id org_id && s.key == key

abbrev pub is_global_setting : (key : String) → Setting → Bool
is_global_setting key s = is_global_scope s.scope && is_no_org s.org_id && s.key == key

newer : Setting → Option Setting → Option Setting
newer s none = some s
newer s (some t) = if ltb s.created_at t.created_at then some t else some s

-- `order_by("-created_at").first()`
unfoldable pub newest : List Setting → Option Setting
unfolding newer
newest [] = none
newest (s ∷ ss) = newer s (newest ss)

abbrev pub value_or : Option Setting → Value → Value
value_or none default = default
value_or (some s) default = s.value

-- `Settings.get_value`, for an organisation.
unfoldable pub get_value : (key org_id : String) (default : Value) → List Setting → Value
get_value key org_id default ss =
    value_or (newest (rows (is_org_setting org_id key) ss))
      (value_or (newest (rows (is_global_setting key) ss)) default)

abbrev pub new_setting : (org_id key : String) → Value → Instant → Setting
new_setting org_id key value now = record {
  scope = org;
  org_id = some org_id;
  key = key;
  value = value;
  created_at = now;
}

unfoldable pub set_value : (org_id key : String) → Value → List Setting → List Setting
set_value org_id key value [] = []
set_value org_id key value (s ∷ ss) =
    (if is_org_setting org_id key s then record s { value = value } else s)
    ∷ set_value org_id key value ss

update_found :
    List Setting → (org_id key : String) → Value → Instant → List Setting → Option (List Setting)
update_found [] org_id key value now ss = some (ss ++ new_setting org_id key value now ∷ [])
update_found (s ∷ []) org_id key value now ss = some (set_value org_id key value ss)
update_found (s ∷ t ∷ more) org_id key value now ss = none

-- `update_or_create(scope=ORG, org=org, key=key, defaults={"value": value})`; none stands for the
-- exception on several rows.
unfoldable pub update_or_create :
    (org_id key : String) → Value → Instant → List Setting → Option (List Setting)
unfolding update_found
update_or_create org_id key value now ss =
    update_found (rows (is_org_setting org_id key) ss) org_id key value now ss

features_of : (String → Option Features) → Value → Features
features_of loads (features f) = f
features_of loads (text t) = elim (loads t) [ none ↦ [] | some f ↦ f ]

module _ (loads : String → Option Features) (default_tier default_flags : Value) where
  unfoldable pub get_license : String → List Setting → Value × Features
  unfolding features_of
  get_license org_id ss = (
    get_value "license_tier" org_id default_tier ss,
    features_of loads (get_value "feature_flags" org_id default_flags ss),
  )

with_row : Option (List Setting) → (tier : String) → Features → Org → Option (List Setting × Org)
with_row none tier flags o = none
with_row (some ss) tier flags o = some (ss, record o { license_tier = tier; feature_flags = flags })

then_flags :
    Option (List Setting)
    → (org_id tier : String) → Features
    → Instant
    → Org
    → Option (List Setting × Org)
then_flags none org_id tier flags now o = none
then_flags (some ss) org_id tier flags now o =
    with_row (update_or_create org_id "feature_flags" (features flags) now ss) tier flags o

-- `update_license`: the settings and the organisation's row after it.
unfoldable pub update_license :
    (org_id tier : String) → Features → Instant → List Setting → Org → Option (List Setting × Org)
unfolding then_flags with_row
update_license org_id tier flags now ss o =
    then_flags (update_or_create org_id "license_tier" (text tier) now ss) org_id tier flags now o
