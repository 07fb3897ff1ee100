-- ===== src/Throttle/Org.antt =====
-- api/throttling.py: the rate limit of an organisation.
pub mod Rate
use django_boilerplate.Prelude.{
  ℕ, ◌≡◌, refl, String, ◌+++◌, Option, none, some, List, [], ◌∷◌, Bool, true, false, ◌==◌, any,
  contains, not, ◌&&◌, if◌then◌else◌, lower, codes_eq, Instant, seconds,
}
use django_boilerplate.Cache.{Cache}
use django_boilerplate.Licensing.{Tiers, Org}
use django_boilerplate.Licensing.Limits.{
  Limit, unlimited, at_most, below_zero, no_number, limit_of_feature, get_rate_limit,
}
use django_boilerplate.Throttle.Window.{admit}

pub data Verdict : Type 0 where
  allowed throttled type_error : Verdict

-- What the throttle reads of a request: the `org_id` of its token claims, the organisation that
-- `_extract_org_from_url` finds in the path, and the ids of the organisations of the user's
-- memberships, if the user is authenticated.
pub record Request : Type 0 where
  pub claimed_org : Option String
  pub url_org : Option String
  pub member_orgs : Option (List String)

-- UUIDs are compared without regard to case.
same_uuid : String → String → Bool
same_uuid a b = codes_eq (lower a) (lower b)

first_org : Option (List String) → Option String
first_org none = none
first_org (some []) = none
first_org (some (org ∷ orgs)) = some org

is_member : String → Option (List String) → Bool
is_member org none = false
is_member org (some orgs) = any (λ o. same_uuid o org) orgs

from_url : Option String → Option (List String) → Option String
from_url none orgs = first_org orgs
from_url (some org) orgs = if is_member org orgs then some org else first_org orgs

from_claims : Option String → Option String → Option String
from_claims none rest = rest
from_claims (some org) rest = if org == "" then rest else some org

unfoldable pub get_org_id : Request → Option String
unfolding from_claims from_url is_member first_org same_uuid
get_org_id r = from_claims r.claimed_org (from_url r.url_org r.member_orgs)

abbrev pub duration : ℕ
duration = seconds 3600

abbrev pub cache_key : String → String
cache_key ident = "throttle:org:" +++ ident

module _ (c : Cache (List Instant)) (tiers : Tiers) (orgs : String → Option Org) where
  -- A limit below -1 is reached by every history.
  limited : Limit → String → Instant → c.State → Verdict × c.State
  limited unlimited key now s = (allowed, s)
  limited no_number key now s = (type_error, s)
  limited below_zero key now s = (throttled, s)
  limited (at_most n) key now s =
      let (ok, s') = admit c key n duration now s in (if ok then allowed else throttled, s')

  for_org : Option String → Instant → c.State → Verdict × c.State
  for_org none now s = (allowed, s)
  for_org (some id) now s =
      if id == ""
      then (allowed, s)
      else limited (limit_of_feature (get_rate_limit tiers (orgs id))) (cache_key id) now s

  -- `orgs` is `Org.objects.get`, none where that raises.
  unfoldable pub allow_request : Request → Instant → c.State → Verdict × c.State
  unfolding for_org limited
  allow_request r now s = for_org (get_org_id r) now s
