-- ===== src/Throttle/Mfa.antt =====
-- api/throttling_mfa.py: the three throttles of MFA verification, and the counting of failures.
pub mod Failures
pub mod Keys
use django_boilerplate.Prelude.{
  ℕ, String, ◌+++◌, Option, none, some, List, [], ◌∷◌, Bool, true, false, not, ◌&&◌, ◌==◌, leb,
  length, if◌then◌else◌, split, strip, Instant, seconds,
}
use django_boilerplate.Cache.{Cache}
use django_boilerplate.Throttle.Window.{or_empty, history}

-- `MFATokenThrottle`, `MFAUserThrottle` and `MFAIPThrottle`.
pub data Kind : Type 0 where
  token user ip : Kind

-- `cache_format`
abbrev pub key_format : Kind → String
key_format token = "throttle:mfa:token:"
key_format user = "throttle:mfa:user:"
key_format ip = "throttle:mfa:ip:"

abbrev pub duration : Kind → ℕ
duration token = seconds 900
duration user = seconds 3600
duration ip = seconds 3600

abbrev pub max_attempts : Kind → ℕ
max_attempts token = 5
max_attempts user = 10
max_attempts ip = 20

abbrev pub cache_key : Kind → String → String
cache_key k name = key_format k +++ name

-- What the throttles read of a request.
pub record Request : Type 0 where
  pub mfa_token : String
  pub forwarded_for : Option String
  pub remote_addr : Option String

first_part : List String → String
first_part [] = ""
first_part (p ∷ ps) = p

-- `get_ident` of the IP throttle.
unfoldable pub get_ident : Request → Option String
unfolding first_part
get_ident r = elim r.forwarded_for [
  | none ↦ r.remote_addr
  | some xff ↦ if xff == "" then r.remote_addr else some (strip (first_part (split b',' xff)))
]

unless_empty : Option String → Option String
unless_empty none = none
unless_empty (some s) = if s == "" then none else some s

-- The name under which a throttle counts a request, none where it lets every request pass.
-- `user_of` is the user id of `MFAToken.objects.get(token=...)`, none if there is no such token.
unfoldable pub ident : (String → Option String) → Request → Kind → Option String
unfolding unless_empty
ident user_of r token = unless_empty (some r.mfa_token)
ident user_of r user = if r.mfa_token == "" then none else user_of r.mfa_token
ident user_of r ip = unless_empty (get_ident r)

module _ (c : Cache (List Instant)) where
  -- `allow_request`, which records nothing.
  unfoldable pub allow_request : Kind → Option String → Instant → c.State → Bool
  allow_request k none now s = true
  allow_request k (some name) now s =
      not (leb (max_attempts k) (length (history c (cache_key k name) (duration k) now s)))

  -- One step of `increment_mfa_failures`; the key is on the request if its throttle let it pass.
  unfoldable pub increment : Kind → Option String → Instant → c.State → c.State
  increment k none now s = s
  increment k (some name) now s =
      c.set (cache_key k name) (now ∷ or_empty (c.get (cache_key k name) now s)) (duration k) now s

  unfoldable pub increment_mfa_failures : (Kind → Option String) → Instant → c.State → c.State
  increment_mfa_failures names now s =
      increment ip (names ip) now
        (increment user (names user) now (increment token (names token) now s))

  -- All throttles of a view are asked, and one refusal is enough.
  unfoldable pub allow_all : (Kind → Option String) → Instant → c.State → Bool
  unfolding allow_request
  allow_all names now s =
      allow_request token (names token) now s
      && allow_request user (names user) now s
      && allow_request ip (names ip) now s
