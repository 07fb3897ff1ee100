-- ===== src/Webhooks/Delivered.antt =====
-- What a delivery sends and how it ends, its retries included.
use django_boilerplate.Prelude.{
  Dict, ℕ, ◌≤◌, ◌≡◌, ◌⊎◌, String, true, some, ◌++◌, ◌==◌, first, length, All,
}
use django_boilerplate.Crypto.{Digests}
use django_boilerplate.Ssrf.{Url, Dns, Settings, SsrfError, Post, other_exception, Call}
use django_boilerplate.Ssrf.Pinned.{IsSafeTarget, IsUnreadable}
use django_boilerplate.Webhooks.{
  Endpoint, Delivery, Database, delivered, failed, uncaught, Run, Outcome, is_success,
}

-- A delivery that is no longer pending: it has failed, or a response of the 200s was received.
abbrev pub IsSettled : Delivery → Type 0
IsSettled x =
    (x.status ≡ failed)
    ⊎ ((x.status ≡ delivered)
        × ((code : ℕ) × (x.response_status ≡ some code) × (is_success code ≡ true)))

-- The delivery with an identifier, and its endpoint.
abbrev pub IsFor : Database → String → Endpoint → Delivery → Type 0
IsFor db id e x =
    (first (λ y. y.id == id) db.deliveries ≡ some x)
    × (first (λ y. y.id == x.endpoint_id) db.endpoints ≡ some e)

module _ (d : Digests) (dns : Dns) (st : Settings) (message : SsrfError → String) (e : Endpoint)
    (runs : ℕ → Run) where
  -- A call of the library whose first request goes where `safe_request` promises.
  abbrev pub IsSafeCall : Call → Type 0
  IsSafeCall c =
      (url : Url) × (headers : Dict String) × (e.url ≡ some url)
      × IsSafeTarget dns st headers url c.post.headers c.post.target

  -- What may raise an exception that the task does not catch: the URL, or the library in one of the runs.
  abbrev pub MayCrash : Type 0
  MayCrash =
      IsUnreadable dns st e.url
      ⊎ ((n : ℕ) × (p : Post) × (text : String) × (((runs n).request p).answer
            ≡ other_exception text))

  -- After runs on tables: the calls were safe, and the delivery is settled, or an exception that is not
  -- caught has left the tables as they were.
  abbrev pub IsDone : Database → String → Outcome → Type 0
  IsDone db id o =
      All IsSafeCall o.calls
      × ((x : Delivery) × IsFor o.database id e x
          × (IsSettled x ⊎ ((o.database ≡ db) × (o.reply ≡ uncaught) × MayCrash)))

  module _ (n : ℕ) (db : Database) (id : String) (x : Delivery) (found : IsFor db id e x) where
    -- One run, with at most one call.
    abbrev IsRun : Outcome → Type 0
    IsRun o = IsDone db id o × (length o.calls ≤ 1)

  -- A run, and then others on the tables that it left.
  abbrev joined : Outcome → Outcome → Outcome
  joined o rest = record {
    reply = rest.reply;
    calls = o.calls ++ rest.calls;
    database = rest.database;
  }
