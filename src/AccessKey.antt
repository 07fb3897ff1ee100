-- ===== src/AccessKey.antt =====
-- api/auth_access_key.py and api/models_access_keys.py: requests signed with the secret of an access
-- key. A body and a canonical query are texts; the timestamps are ASCII digits, and any other text counts
-- as the ValueError of `int`.
pub mod Header
pub mod Accepted
pub mod Replay
mod Tests
use django_boilerplate.Prelude.{
  ℕ, ◌+◌, ◌/◌, String, ◌+++◌, Bool, true, false, not, ◌&&◌, ◌||◌, Option, none, some, List, [], ◌∷◌,
  ◌++◌, ◌==◌, ltb, rows, int, upper, lower_text, join, after_prefix, if◌then◌else◌, Instant,
  seconds,
}
use django_boilerplate.Crypto.{Digests}
use django_boilerplate.Cache.{Cache, add}
use django_boilerplate.AccessKey.Header.{Credentials, parse_header}

pub record AccessKeyPair : Type 0 where
  pub user_id : String
  pub name : String
  pub access_key_id : String
  pub secret_access_key : String
  pub last_used_at : Option Instant
  pub revoked : Bool

-- What the code reads of a request; `canonical_query` is `urlencode` of its sorted parameters.
pub record Request : Type 0 where
  pub authorization : String
  pub method : String
  pub host : String
  pub path : String
  pub canonical_query : String
  pub body : String

module _ (d : Digests) where
  unfoldable pub compute_signature : (secret timestamp method path : String) → String
  compute_signature secret timestamp method path =
      d.hmac_sha256 secret (timestamp +++ (upper method +++ path))

  unfoldable pub compute_signature_enhanced :
      (secret timestamp nonce method host path canonical_query body : String) → String
  compute_signature_enhanced secret timestamp nonce method host path canonical_query body =
      d.hmac_sha256 secret (
        join "\n" (
          timestamp
          ∷ nonce
          ∷ upper method
          ∷ lower_text host
          ∷ path
          ∷ canonical_query
          ∷ d.sha256 body
          ∷ []))

abbrev pub tolerance : ℕ
tolerance = 300

-- `abs(current_time - request_time) > TIMESTAMP_TOLERANCE_SECONDS`
unfoldable pub is_expired : (current request : ℕ) → Bool
is_expired current request = ltb (request + tolerance) current || ltb (current + tolerance) request

unfoldable pub find_key : String → List AccessKeyPair → Option AccessKeyPair
find_key id [] = none
find_key id (k ∷ ks) =
    let rest = find_key id ks in if k.access_key_id == id && not k.revoked then some k else rest

abbrev pub nonce_key : (access_key_id nonce : String) → String
nonce_key access_key_id nonce = "aksk:nonce:" +++ (access_key_id +++ (":" +++ nonce))

unfoldable pub given : Option String → Option String
given none = none
given (some nonce) = if nonce == "" then none else some nonce

pub data Outcome : Type 0 where
  no_credentials invalid_format invalid_timestamp timestamp_expired invalid_key replayed
        invalid_signature :
      Outcome
  authenticated : AccessKeyPair → Outcome

module _ (d : Digests) (c : Cache String) where
  -- `_verify_nonce`
  unfoldable pub verify_nonce : (access_key_id nonce : String) → Instant → c.State → Bool × c.State
  verify_nonce access_key_id nonce now s =
      add c (nonce_key access_key_id nonce) "1" (seconds tolerance) now s

  unfoldable pub expected_signature : Request → Credentials → Option String → AccessKeyPair → String
  expected_signature r cred none k =
      compute_signature d k.secret_access_key cred.timestamp r.method r.path
  expected_signature r cred (some nonce) k =
      compute_signature_enhanced d k.secret_access_key cred.timestamp nonce r.method r.host r.path
        r.canonical_query r.body

  check_signature : Request → Credentials → Option String → AccessKeyPair → Outcome
  check_signature r cred nonce k =
      if expected_signature r cred nonce k == cred.signature
      then authenticated k
      else invalid_signature

  after_nonce : Request → Credentials → String → AccessKeyPair → Bool × c.State → Outcome × c.State
  after_nonce r cred nonce k (fresh, s) =
      if fresh then (check_signature r cred (some nonce) k, s) else (replayed, s)

  check_nonce :
      Request → Credentials → Option String → AccessKeyPair → Instant → c.State → Outcome × c.State
  check_nonce r cred none k now s = (check_signature r cred none k, s)
  check_nonce r cred (some nonce) k now s =
      after_nonce r cred nonce k (verify_nonce cred.access_key_id nonce now s)

  with_key : Request → Credentials → Option AccessKeyPair → Instant → c.State → Outcome × c.State
  with_key r cred none now s = (invalid_key, s)
  with_key r cred (some k) now s = check_nonce r cred (given cred.nonce) k now s

  with_time :
      Request → Credentials → Option ℕ → List AccessKeyPair → Instant → c.State → Outcome × c.State
  with_time r cred none keys now s = (invalid_timestamp, s)
  with_time r cred (some request_time) keys now s =
      if is_expired (now / 1000000) request_time
      then (timestamp_expired, s)
      else with_key r cred (find_key cred.access_key_id keys) now s

  -- `_validate_credentials`
  unfoldable pub validate_credentials :
      Request → Credentials → List AccessKeyPair → Instant → c.State → Outcome × c.State
  unfolding with_time with_key check_nonce after_nonce check_signature expected_signature given
  validate_credentials r cred keys now s = with_time r cred (int cred.timestamp) keys now s

  with_header :
      Request → Option Credentials → List AccessKeyPair → Instant → c.State → Outcome × c.State
  with_header r none keys now s = (invalid_format, s)
  with_header r (some cred) keys now s = validate_credentials r cred keys now s

  after_keyword :
      Request → Option String → List AccessKeyPair → Instant → c.State → Outcome × c.State
  after_keyword r none keys now s = (no_credentials, s)
  after_keyword r (some text) keys now s = with_header r (parse_header text) keys now s

  -- `authenticate`, but for the update of the key's `last_used_at`.
  unfoldable pub authenticate : Request → List AccessKeyPair → Instant → c.State → Outcome × c.State
  unfolding with_header after_keyword
  authenticate r keys now s = after_keyword r (after_prefix "AKSK " r.authorization) keys now s

-- `update_last_used` and `revoke`, saved over the row with the id.
unfoldable pub update_last_used : String → Instant → List AccessKeyPair → List AccessKeyPair
update_last_used id now [] = []
update_last_used id now (k ∷ ks) =
    (if k.access_key_id == id then record k { last_used_at = some now } else k)
    ∷ update_last_used id now ks

unfoldable pub revoke : String → List AccessKeyPair → List AccessKeyPair
revoke id [] = []
revoke id (k ∷ ks) =
    (if k.access_key_id == id then record k { revoked = true } else k) ∷ revoke id ks
