-- ===== src/Idempotency/Tests.antt =====
-- Two requests with one idempotency key.
use django_boilerplate.Prelude.{
  ◌≡◌, ◌≢◌, ◌+◌, ◌≤◌, ◌<◌, refl, String, ◌+++◌, some, arith, ◌==◌, eq_iff, if◌then◌else◌, seconds,
}
use django_boilerplate.Cache.Table.{table, empty}
use django_boilerplate.Crypto.Toy.{toy}
use django_boilerplate.Idempotency.{
  Request, passed, duplicate, key_reuse, hash_request, process_request,
}
use django_boilerplate.Idempotency.Once.{second_request}

abbrev dumps : (body method path : String) → String
dumps body method path = body +++ ("|" +++ (method +++ ("|" +++ path)))

abbrev order : String → Request
order body = record { method = "POST"; path = "/orders"; body = body; idempotency_key = some "k1" }

key_named : ◌≢◌ {A = String} "k1" ""
key_named = ground (arith, eq_iff "k1" "")

second_request_example :
    let c = table String in
    let first = process_request toy dumps c 60 (order "tea") 5 (empty String) in
    let second = process_request toy dumps c 60 (order "milk") 7 first.1 in
    (first.0 ≡ passed)
    × (7 < 5 + seconds 60
        → second ≡ (
          if hash_request toy dumps (order "tea") == hash_request toy dumps (order "milk")
              then duplicate
              else key_reuse,
          first.1,
        ))
    × (5 + seconds 60 ≤ 7 → second.0 ≡ passed)
second_request_example =
    second_request toy dumps (table String) 60 (order "tea") (order "milk") "k1" 5 7 (empty String)
      key_named refl refl refl refl refl
