-- ===== src/Webhooks/Dispatched.antt =====
-- Which endpoints an event is dispatched to.
use django_boilerplate.Prelude.{
  ℕ, suc, ◌≡◌, ◌≢◌, ◌⊎◌, refl, String, true, ◌||◌, Bool-cases, inl, inr, some, List, [], ◌∷◌, ◌++◌,
  eq_iff, eq-false_of_ne, arith, rows, contains, All,
}
use django_boilerplate.Webhooks.{
  Endpoint, Delivery, Database, pending, is_for_all, is_matching, deliveries_for, dispatch_webhook,
}

-- An endpoint that an organisation's event concerns.
abbrev pub IsSubscribed : (event_type org : String) → Endpoint → Type 0
IsSubscribed event_type org e =
    (e.is_active ≡ true)
    × (e.org_id ≡ org)
    × ((e.events ≡ []) ⊎ (contains e.events event_type ≡ true))

-- Each delivery with its endpoint, in the order of the endpoints.
abbrev pub AreFor : (event_type payload : String) → List Endpoint → List Delivery → Type 0
AreFor event_type payload [] [] = Unit
AreFor event_type payload [] (x ∷ xs) = ⊥
AreFor event_type payload (e ∷ es) [] = ⊥
AreFor event_type payload (e ∷ es) (x ∷ xs) =
    (x.endpoint_id ≡ e.id)
    × (x.event_type ≡ event_type)
    × (x.payload ≡ payload)
    × (x.status ≡ pending)
    × (x.attempts ≡ 0)
    × AreFor event_type payload es xs

deliveries-AreFor :
    (event_type payload : String) (draw : ℕ → String) (n : ℕ) (es : List Endpoint)
    → AreFor event_type payload es (deliveries_for event_type payload draw n es)
unfolding deliveries_for
deliveries-AreFor event_type payload draw n [] = tt
deliveries-AreFor event_type payload draw n (e ∷ es) =
    (refl, refl, refl, refl, refl, deliveries-AreFor event_type payload draw (suc n) es)

all_or_named :
    (events : List String) (event_type : String)
    → (is_for_all events || contains events event_type) ≡ true
    → (events ≡ []) ⊎ (contains events event_type ≡ true)
all_or_named [] event_type h = inl refl
all_or_named (x ∷ xs) event_type h = inr h

matching-IsSubscribed :
    (event_type org : String) (e : Endpoint)
    → org ≢ ""
    → is_matching event_type (some org) e ≡ true
    → IsSubscribed event_type org e
matching-IsSubscribed event_type org e named h =
    let other = eq-false_of_ne org "" named in
    (
      ground (arith, h),
      ground (arith, h, other, eq_iff e.org_id org),
      all_or_named e.events event_type (ground (arith, h, other)),
    )

rows-IsSubscribed :
    (event_type org : String) (es : List Endpoint)
    → org ≢ ""
    → All (IsSubscribed event_type org) (rows (is_matching event_type (some org)) es)
rows-IsSubscribed event_type org [] named = tt
rows-IsSubscribed event_type org (e ∷ es) named =
    elim (Bool-cases (is_matching event_type (some org) e)) [
      | inl here ↦ rw here (
        matching-IsSubscribed event_type org e named here,
        rows-IsSubscribed event_type org es named,
      )
      | inr other ↦ rw other (rows-IsSubscribed event_type org es named)
    ]

-- An event of a named organisation is dispatched. Then the deliveries that are created are one for each
-- endpoint that is active, of that organisation and subscribed to the event or to all events; they are
-- pending, without attempts, and stand after the deliveries that were there.
pub dispatched_in_org :
    (event_type payload org : String) (draw : ℕ → String) (db : Database)
    → org ≢ ""
    → let (new, after) = dispatch_webhook event_type payload (some org) draw db in
      (after ≡ record db { deliveries = db.deliveries ++ new })
      × ((es : List Endpoint) × (es ≡ rows (is_matching event_type (some org)) db.endpoints)
          × All (IsSubscribed event_type org) es
          × AreFor event_type payload es new)
unfolding dispatch_webhook
dispatched_in_org event_type payload org draw db named = (
  refl,
  (
    rows (is_matching event_type (some org)) db.endpoints,
    refl,
    rows-IsSubscribed event_type org db.endpoints named,
    deliveries-AreFor event_type payload draw 0
        (rows (is_matching event_type (some org)) db.endpoints),
  ),
)
