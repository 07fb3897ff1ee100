-- ===== src/AccessKey/Tests.antt =====
-- A signed request, sent twice.
use django_boilerplate.Prelude.{
  ◌≡◌, ◌+◌, ◌/◌, ◌≤◌, ◌<◌, refl, String, ◌+++◌, false, none, some, List, [], ◌∷◌, arith, int, upper,
  lower_text, join, strip, after_prefix, lookup, put, seconds,
}
use django_boilerplate.Cache.Table.{table, empty}
use django_boilerplate.Crypto.Toy.{toy}
use django_boilerplate.AccessKey.Header.{Credentials, parse_header}
use django_boilerplate.AccessKey.{
  AccessKeyPair, Request, authenticated, tolerance, is_expired, find_key, given, expected_signature,
  compute_signature_enhanced, validate_credentials, verify_nonce, authenticate,
}
use django_boilerplate.AccessKey.Accepted.{IsSignedRequest, authenticated_signed}
use django_boilerplate.AccessKey.Replay.{is_authenticated, Reaches, nonce_spent, replay_accepted}

abbrev key : AccessKeyPair
key = record {
  user_id = "1";
  name = "ci";
  access_key_id = "AK1";
  secret_access_key = "sec";
  last_used_at = none;
  revoked = false;
}

abbrev keys : List AccessKeyPair
keys = key ∷ []

abbrev signature : String
signature = "sec700\nn1\nGET\nhost\n/p\n\n##"

abbrev request : Request
request = record {
  authorization = "AKSK AccessKeyId=AK1, Timestamp=700, Nonce=n1, Signature=" +++ signature;
  method = "get";
  host = "HOST";
  path = "/p";
  canonical_query = "";
  body = "";
}

abbrev cred : Credentials
cred = record { access_key_id = "AK1"; timestamp = "700"; signature = signature; nonce = some "n1" }

authenticate_run :
    (authenticate toy (table String) request keys (seconds 700) (empty String)).0
    ≡ authenticated key
unfolding authenticate validate_credentials parse_header after_prefix strip lookup put int
    is_expired find_key given expected_signature compute_signature_enhanced upper lower_text join
    verify_nonce
authenticate_run = refl

authenticated_signed_example : IsSignedRequest toy (table String) request keys (seconds 700) key
authenticated_signed_example =
    authenticated_signed toy (table String) request keys (seconds 700) key (empty String)
      authenticate_run

accepted :
    (validate_credentials toy (table String) request cred keys (seconds 700) (empty String)).0
    ≡ authenticated key
unfolding validate_credentials int is_expired find_key given expected_signature
    compute_signature_enhanced upper lower_text join verify_nonce
accepted = refl

named : given cred.nonce ≡ some "n1"
unfolding given
named = refl

read : int cred.timestamp ≡ some 700
unfolding int
read = refl

reached :
    Reaches toy
      (table String)
      (validate_credentials toy (table String) request cred keys (seconds 700) (empty String)).0
reached = rw accepted tt

soon : seconds 800 < seconds 700 + seconds tolerance
soon = omega arith

nonce_spent_example :
    let after =
      (validate_credentials toy (table String) request cred keys (seconds 700) (empty String)).1 in
    is_authenticated
      (validate_credentials toy (table String) request cred keys (seconds 800) after).0
    ≡ false
nonce_spent_example =
    nonce_spent toy (table String) request request cred cred keys keys "n1" (seconds 700)
      (seconds 800) (empty String) named named refl soon reached

gone : seconds 700 + seconds tolerance ≤ seconds 1000
gone = omega arith

within : seconds 1000 / 1000000 ≤ 700 + tolerance
within = omega arith

replay_accepted_example :
    let after =
      (validate_credentials toy (table String) request cred keys (seconds 700) (empty String)).1 in
    (validate_credentials toy (table String) request cred keys (seconds 1000) after).0
    ≡ authenticated key
replay_accepted_example =
    replay_accepted toy (table String) request cred keys key "n1" 700 (seconds 700) (seconds 1000)
      (empty String) named read accepted gone within
