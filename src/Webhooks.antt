-- ===== src/Webhooks.antt =====
-- api/webhooks.py, deliver_webhook of api/tasks.py, and the test view of api/views_webhooks.py, over the
-- tables WebhookEndpoint and WebhookDelivery of api/models.py. A payload stands by its JSON text with
-- sorted keys, a timestamp by its text, and an endpoint's URL by what `urlparse` finds in it, `none` where it
-- raises a ValueError.
pub mod Dispatched
pub mod Delivered
mod Tests
use django_boilerplate.Prelude.{
  ℕ, zero, suc, ◌+◌, String, ◌+++◌, Bool, true, false, not, ◌&&◌, ◌||◌, Option, none, some, List,
  [], ◌∷◌, ◌++◌, ◌==◌, leb, ltb, rows, first, contains, take_text, Dict, put, merge, if◌then◌else◌,
  Instant,
}
use django_boilerplate.Crypto.{Digests}
use django_boilerplate.Rows.{change}
use django_boilerplate.Ssrf.{
  Url, Dns, Settings, SsrfError, Result, raised, value_error, ok, Post, Answer, response,
  request_exception, other_exception, Exchange, Call, safe_request,
}

pub record Endpoint : Type 0 where
  pub id : String
  pub org_id : String
  pub name : String
  pub url : Option Url
  pub secret : String
  pub events : List String
  pub is_active : Bool
  pub headers : Dict String

pub data Status : Type 0 where
  pending delivered failed : Status

pub record Delivery : Type 0 where
  pub id : String
  pub endpoint_id : String
  pub event_type : String
  pub payload : String
  pub status : Status
  pub attempts : ℕ
  pub last_attempt_at : Option Instant
  pub response_status : Option ℕ
  pub response_body : Option String

pub record Database : Type 0 where
  pub endpoints : List Endpoint
  pub deliveries : List Delivery

-- `sign_payload`
unfoldable pub sign_payload : Digests → (payload secret timestamp : String) → String
sign_payload d payload secret timestamp =
    "sha256=" +++ d.hmac_sha256 secret (timestamp +++ "." +++ payload)

-- `verify_signature`
unfoldable pub verify_signature :
    Digests → (payload secret timestamp received_signature : String) → Bool
verify_signature d payload secret timestamp received_signature =
    sign_payload d payload secret timestamp == received_signature

abbrev pub is_for_all : List String → Bool
is_for_all [] = true
is_for_all (e ∷ es) = false

-- `if org_id`
abbrev pub in_scope : Option String → Endpoint → Bool
in_scope none e = true
in_scope (some org) e = org == "" || e.org_id == org

abbrev pub is_matching : (event_type : String) → Option String → Endpoint → Bool
is_matching event_type org e =
    e.is_active && in_scope org e && (is_for_all e.events || contains e.events event_type)

abbrev pub new_delivery : (event_type payload id : String) → Endpoint → Delivery
new_delivery event_type payload id e = record {
  id = id;
  endpoint_id = e.id;
  event_type = event_type;
  payload = payload;
  status = pending;
  attempts = 0;
  last_attempt_at = none;
  response_status = none;
  response_body = none;
}

-- A delivery for each endpoint; the n-th has the n-th identifier that is drawn.
unfoldable pub deliveries_for :
    (event_type payload : String) → (ℕ → String) → ℕ → List Endpoint → List Delivery
deliveries_for event_type payload draw n [] = []
deliveries_for event_type payload draw n (e ∷ es) =
    new_delivery event_type payload (draw n) e ∷ deliveries_for event_type payload draw (suc n) es

-- `dispatch_webhook`: the deliveries that are created and queued, and the tables after it.
unfoldable pub dispatch_webhook :
    (event_type payload : String)
    → Option String
    → (ℕ → String)
    → Database
    → List Delivery × Database
unfolding deliveries_for
dispatch_webhook event_type payload org draw db =
    let new =
      deliveries_for event_type payload draw 0 (rows (is_matching event_type org) db.endpoints) in
    (new, record db { deliveries = db.deliveries ++ new })

pub data Reply : Type 0 where
  not_found : Reply
  skipped : Reply
  done : Status → (response_status attempts : ℕ) → Reply
  blocked : SsrfError → (attempts : ℕ) → Reply
  raised_again : Reply
  uncaught : Reply

-- One execution of the task; `request` is `requests.request`.
pub record Run : Type 0 where
  pub now : Instant
  pub timestamp : String
  pub request : Post → Exchange

-- What a run returns: its reply or how it is left by an exception, the calls of the library that it made,
-- and the tables.
pub record Outcome : Type 0 where
  pub reply : Reply
  pub calls : List Call
  pub database : Database

abbrev pub headers_for : Digests → Run → Endpoint → Delivery → Dict String
headers_for d r e x =
    merge
      (("Content-Type", "application/json")
        ∷ ("X-Webhook-Signature", sign_payload d x.payload e.secret r.timestamp)
        ∷ ("X-Webhook-Timestamp", r.timestamp)
        ∷ ("X-Webhook-Event", x.event_type)
        ∷ ("User-Agent", "Django-Webhook-Delivery/1.0")
        ∷ [])
      e.headers

abbrev pub attempted : Run → Delivery → Delivery
attempted r x = record x { attempts = x.attempts + 1; last_attempt_at = some r.now }

abbrev pub is_success : ℕ → Bool
is_success code = leb 200 code && ltb code 300

abbrev pub status_of : ℕ → Status
status_of code = if is_success code then delivered else failed

abbrev pub set_delivery : String → (Delivery → Delivery) → Database → Database
set_delivery id f db = record db {
  deliveries = change (λ x. x.id) (λ x. x.endpoint_id) id f db.deliveries;
}

abbrev pub answered : ℕ → String → Delivery → Delivery
answered code text x = record x {
  status = status_of code;
  response_status = some code;
  response_body = some (take_text 5000 text);
}

abbrev pub failed_with : String → Delivery → Delivery
failed_with message x = record x { status = failed; response_body = some (take_text 5000 message) }

-- `str(e)` of an exception of `api/ssrf.py`, which is its message.
module _ (d : Digests) (dns : Dns) (st : Settings) (message : SsrfError → String) where
  after_answer : Run → Answer → Call → Delivery → Database → Outcome
  after_answer r (response code text) c x db = record {
    reply = done (status_of code) code (x.attempts + 1);
    calls = c ∷ [];
    database = set_delivery x.id (λ y. answered code text (attempted r y)) db;
  }
  after_answer r (request_exception text) c x db = record {
    reply = raised_again;
    calls = c ∷ [];
    database = set_delivery x.id (λ y. failed_with text (attempted r y)) db;
  }
  after_answer r (other_exception text) c x db = record {
    reply = uncaught;
    calls = c ∷ [];
    database = db;
  }

  -- An exception that no clause catches leaves the row as it is: the attempt is not saved.
  after_call : Run → Result Call → Delivery → Database → Outcome
  unfolding after_answer
  after_call r (raised e) x db = record {
    reply = blocked e (x.attempts + 1);
    calls = [];
    database =
        set_delivery x.id (λ y. failed_with ("SSRF Protection: " +++ message e) (attempted r y)) db;
  }
  after_call r value_error x db = record { reply = uncaught; calls = []; database = db }
  after_call r (ok c) x db = after_answer r c.exchange.answer c x db

  post_to : Run → Endpoint → Delivery → Database → Outcome
  unfolding after_call
  post_to r e x db =
      after_call r (safe_request dns st r.request (headers_for d r e x) x.payload e.url) x db

  inactive : Delivery → Database → Outcome
  inactive x db = record {
    reply = skipped;
    calls = [];
    database =
        set_delivery x.id
          (λ y. record y { status = failed; response_body = some "Endpoint is inactive" }) db;
  }

  with_endpoint : Run → Option Endpoint → Delivery → Database → Outcome
  with_endpoint r none x db = record { reply = not_found; calls = []; database = db }
  with_endpoint r (some e) x db = if not e.is_active then inactive x db else post_to r e x db

  with_delivery : Run → Option Delivery → Database → Outcome
  with_delivery r none db = record { reply = not_found; calls = []; database = db }
  with_delivery r (some x) db =
      with_endpoint r (first (λ e. e.id == x.endpoint_id) db.endpoints) x db

  -- `deliver_webhook`. A delivery's endpoint exists, since its deliveries go with it.
  unfoldable pub deliver_webhook : Run → (delivery_id : String) → Database → Outcome
  unfolding after_answer after_call post_to inactive with_endpoint with_delivery
  deliver_webhook r delivery_id db =
      with_delivery r (first (λ x. x.id == delivery_id) db.deliveries) db

  is_retry : Reply → Bool
  is_retry raised_again = true
  is_retry uncaught = true
  is_retry _ = false

  -- The task with its retries: it is executed again after any exception, up to `max_retries` times.
  unfoldable pub deliver_with_retries :
      (max_retries : ℕ) → (ℕ → Run) → ℕ → (delivery_id : String) → Database → Outcome
  unfolding is_retry
  deliver_with_retries zero runs n id db = deliver_webhook (runs n) id db
  deliver_with_retries (suc left) runs n id db =
      let o = deliver_webhook (runs n) id db in
      let rest = deliver_with_retries left runs (suc n) id o.database in
      if is_retry o.reply
      then record { reply = rest.reply; calls = o.calls ++ rest.calls; database = rest.database }
      else o

-- `WebhookTestView.post`: the deliveries that are queued, none where there is no such endpoint.
test_found : Option Endpoint → String → (ℕ → String) → Database → Option (List Delivery) × Database
test_found none payload draw db = (none, db)
test_found (some e) payload draw db =
    let (new, after) = dispatch_webhook "webhook.test" payload (some e.org_id) draw db in
    (some new, after)

unfoldable pub test_webhook :
    (pk payload : String) → (ℕ → String) → Database → Option (List Delivery) × Database
unfolding test_found
test_webhook pk payload draw db = test_found (first (λ e. e.id == pk) db.endpoints) payload draw db
