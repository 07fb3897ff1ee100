-- ===== src/Webhooks/Tests.antt =====
-- Endpoints of two organisations, and the deliveries of an event.
use django_boilerplate.Prelude.{ℕ, zero, suc, ◌≡◌, ◌≢◌, refl, String, true, some, List, [], ◌∷◌}
use django_boilerplate.Crypto.Toy.{toy}
use django_boilerplate.Ssrf.{
  no_port, bad_port, Url, v4, response, request_exception, call, read_port, Dns, Settings,
  SsrfError, is_private_ip, is_blocked_hostname, safe_request, resolve_hostname,
  validate_webhook_url, validate_ip_addresses,
}
use django_boilerplate.Webhooks.{
  Endpoint, Database, delivered, Run, done, uncaught, new_delivery, dispatch_webhook,
  deliver_webhook, deliver_with_retries, test_webhook,
}

abbrev url : Url
url = record {
  scheme = "https";
  hostname = some "example.org";
  port = no_port;
  path = "/hook";
  params = "";
  query = "";
  fragment = "";
}

abbrev settings : Settings
settings = record {
  ssrf_protection_enabled = true;
  allowed_schemes = "https" ∷ [];
  allowed_hosts = [];
  blocked_hosts = [];
  block_private_ips = true;
}

abbrev dns : Dns
dns host = some (v4 134744072 ∷ [])

abbrev endpoint : (id org_id : String) → List String → Endpoint
endpoint id org_id events = record {
  id = id;
  org_id = org_id;
  name = id;
  url = some url;
  secret = "s";
  events = events;
  is_active = true;
  headers = [];
}

abbrev database : Database
database = record {
  endpoints =
      endpoint "e1" "acme" []
      ∷ endpoint "e2" "other" []
      ∷ endpoint "e3" "acme" ("org.updated" ∷ [])
      ∷ [];
  deliveries = new_delivery "org.updated" "{}" "d0" (endpoint "e1" "acme" []) ∷ [];
}

abbrev draw : ℕ → String
draw zero = "d1"
draw (suc n) = "d2"

-- The test of one endpoint reaches the others of its organisation that listen to all events.
test_run :
    (test_webhook "e3" "{}" draw database).0
    ≡ some (new_delivery "webhook.test" "{}" "d1" (endpoint "e1" "acme" []) ∷ [])
unfolding test_webhook dispatch_webhook
test_run = refl

acme_named : ◌≢◌ {A = String} "acme" ""
acme_named = cc

abbrev message : SsrfError → String
message e = "refused"

-- The first run meets an exception, the others a response.
abbrev runs : ℕ → Run
runs zero = record {
  now = 5;
  timestamp = "5";
  request = λ p. record { redirects = []; answer = request_exception "timeout" };
}
runs (suc n) = record {
  now = 6;
  timestamp = "6";
  request = λ p. record { redirects = []; answer = response 204 "" };
}

delivered_run :
    (deliver_with_retries toy dns settings message 3 runs 0 "d0" database).reply
    ≡ done delivered 204 2
unfolding deliver_with_retries deliver_webhook safe_request validate_webhook_url is_blocked_hostname
    resolve_hostname validate_ip_addresses is_private_ip call read_port
delivered_run = refl

-- An endpoint whose URL has a port that cannot be read.
abbrev unreadable : Endpoint
unreadable = record (endpoint "e1" "acme" []) { url = some (record url { port = bad_port }) }

abbrev stuck : Database
stuck = record database { endpoints = unreadable ∷ [] }

-- Every run ends in the same exception, and the delivery stays pending without an attempt.
stuck_run :
    let o = deliver_with_retries toy dns settings message 3 runs 0 "d0" stuck in
    (o.reply ≡ uncaught) × (o.database ≡ stuck)
unfolding deliver_with_retries deliver_webhook safe_request validate_webhook_url is_blocked_hostname
    resolve_hostname validate_ip_addresses is_private_ip read_port
stuck_run = (refl, refl)
