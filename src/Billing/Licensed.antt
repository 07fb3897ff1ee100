-- ===== src/Billing/Licensed.antt =====
-- What an event of a subscription does to the license of an organisation.
use django_boilerplate.Prelude.{
  ◌≡◌, ◌≢◌, ◌⊎◌, refl, ap, sym, ◌∙◌, inl, inr, String, Bool, true, false, Option, none, some, [],
  ◌∷◌, ◌==◌, arith, eq_iff, rows, Dict, Instant,
}
use django_boilerplate.Rows.{change}
use django_boilerplate.Licensing.{Features}
use django_boilerplate.Licensing.Stored.{Value, text, features, get_license}
use django_boilerplate.Licensing.Stored.RoundTrip.{license_roundtrip}
use django_boilerplate.Licensing.Stored.Update.{updated}
use django_boilerplate.Licensing.Stored.Constrained.{
  IsConstrained, update-IsConstrained, license_kept, update_license-IsConstrained,
}
use django_boilerplate.Billing.Signature.{or_none}
use django_boilerplate.Billing.{
  Org, Database, Settings, Event, handled, found, one_of, get_org, find_org, is_given, is_user_id,
  map_price_to_tier, get_tier_features, set_org, sync_status, set_org_license, with_features,
  then_sync, set_stripe_sync_status, then_settings, or_customer,
}
use django_boilerplate.Billing.Handlers.{
  handle, is_for_user, subscription_deleted, update_from_subscription, update_org_from_subscription,
  update_org, with_org,
}

sync-ne-tier : ◌≢◌ {A = String} "stripe_sync_status" "license_tier"
sync-ne-tier = ground (arith, eq_iff "stripe_sync_status" "license_tier")

sync-ne-flags : ◌≢◌ {A = String} "stripe_sync_status" "feature_flags"
sync-ne-flags = ground (arith, eq_iff "stripe_sync_status" "feature_flags")

abbrev licensed_row : (tier : String) → Features → Option String → Org → Org → Org
licensed_row tier f subscription o x = record x {
  license = record o.license { license_tier = tier; feature_flags = f };
  stripe_subscription_id = subscription;
}

module _ (loads : String → Option Features) (default_tier default_flags : Value) where
  -- The license of an organisation, read from its settings and in its row, and nothing else.
  pub record IsLicensed (o : Org) (tier : String) (f : Features) (subscription : Option String)
      (db after : Database) : Type 0 where
    pub read : get_license loads default_tier default_flags o.id after.settings ≡ (text tier, f)
    pub others :
        (other : String)
        → other ≢ o.id
        → get_license loads default_tier default_flags other after.settings
          ≡ get_license loads default_tier default_flags other db.settings
    pub row :
        after.orgs
        ≡ change (λ x. x.id) (λ x. x.id) o.id (licensed_row tier f subscription o) db.orgs
    pub profiles : after.profiles ≡ db.profiles
    pub constrained : IsConstrained after.settings

  module _ (is_uuid : String → Bool) (st : Settings) (now : Instant) (iso : String) where
    set_license-IsLicensed :
        (tier status : String) (f : Features) (subscription : Option String) (o : Org)
        (db : Database)
        → get_tier_features st.stripe_tier_features tier ≡ some f
        → IsConstrained db.settings
        → (after : Database) × (set_org_license is_uuid st now iso tier subscription status o db
            ≡ (handled, after))
          × IsLicensed o tier f subscription db after
    unfolding set_org_license with_features then_sync set_stripe_sync_status then_settings
    set_license-IsLicensed tier status f subscription o db e one =
        let (ss, e1, own, others) =
          license_roundtrip loads default_tier default_flags o.id tier f now db.settings o.license
            (one o.id "license_tier") (one o.id "feature_flags") in
        let one1 = update_license-IsConstrained o.id tier f now db.settings ss o.license _ one e1 in
        let status_value = features (sync_status status iso) in
        let (ss2, e2, u) =
          updated o.id "stripe_sync_status" status_value now ss (one1 o.id "stripe_sync_status") in
        let kept : (other : String)
            → get_license loads default_tier default_flags other ss2
              ≡ get_license loads default_tier default_flags other ss =
          λ other.
            license_kept o.id "stripe_sync_status" status_value now loads default_tier default_flags
              other ss ss2 u sync-ne-tier sync-ne-flags in
        let db1 : Database =
          set_org o.id (licensed_row tier f subscription o) (record db { settings = ss }) in
        (
          record db1 { settings = ss2 },
          ap (λ x. with_features is_uuid st now iso x tier subscription status o db) e
              ∙ ap (λ x. then_sync is_uuid st now iso x subscription status o db) e1
              ∙ ap (λ x. then_settings is_uuid st now iso x db1) e2,
          record {
            read = kept o.id ∙ own;
            others = λ other ne. kept other ∙ others other ne;
            row = refl;
            profiles = refl;
            constrained =
                update-IsConstrained o.id "stripe_sync_status" status_value now ss ss2 u one1;
          },
        )

    found_org :
        (k : String) (customer : Option String) (o : Org) (db : Database)
        → is_user_id k ≡ false
        → k ≢ ""
        → is_uuid k ≡ true
        → rows (λ x. x.id == k) db.orgs ≡ o ∷ []
        → find_org is_uuid st now iso (some k) customer db ≡ found o
    unfolding find_org get_org one_of or_customer
    found_org k customer o db no_user filled uuid row =
        rw (no_user, uuid, row) (ground (arith, eq_iff k ""))

    named_org :
        (e : Event) (k : String) (o : Org) (db : Database)
        → is_for_user is_uuid st now iso e ≡ false
        → e.metadata_org_id ≡ some k
        → k ≢ ""
        → is_uuid k ≡ true
        → rows (λ x. x.id == k) db.orgs ≡ o ∷ []
        → find_org is_uuid st now iso (some (or_none e.metadata_org_id)) e.customer db ≡ found o
    named_org e k o db for_org named filled uuid row = rw named (
        found_org k e.customer o db
          (ap (λ x. is_user_id (or_none x)) (sym named) ∙ ground (arith, for_org)) filled uuid row)

    deleted :
        (e : Event) (o : Org) (db : Database)
        → e.event_type ≡ "customer.subscription.deleted"
        → is_for_user is_uuid st now iso e ≡ false
        → find_org is_uuid st now iso (some (or_none e.metadata_org_id)) e.customer db ≡ found o
        → handle is_uuid st now iso e db
          ≡ set_org_license is_uuid st now iso "free" none "cancelled" o db
    unfolding handle subscription_deleted with_org
    deleted e o db event for_org there = rw (event, for_org, there) refl

    changed :
        (e : Event) (o : Org) (db : Database)
        → (e.event_type ≡ "customer.subscription.created")
          ⊎ (e.event_type ≡ "customer.subscription.updated")
        → is_for_user is_uuid st now iso e ≡ false
        → find_org is_uuid st now iso (some (or_none e.metadata_org_id)) e.customer db ≡ found o
        → handle is_uuid st now iso e db ≡ update_org is_uuid st now iso e o db
    unfolding handle update_from_subscription update_org_from_subscription with_org
    changed e o db (inl event) for_org there = rw (event, for_org, there) refl
    changed e o db (inr event) for_org there = rw (event, for_org, there) refl

    paid_for :
        (e : Event) (o : Org) (db : Database)
        → is_given e.price_id ≡ true
        → e.status ≡ some "active"
        → update_org is_uuid st now iso e o db
          ≡ set_org_license is_uuid st now iso
              (map_price_to_tier st.stripe_price_tier_map (or_none e.price_id))
              e.id
              "active"
              o
              db
    unfolding update_org
    paid_for e o db priced active = rw (priced, active) refl

-- The tier and the subscription that an event asks for.
pub data Asks (prices : Dict String) (e : Event) : String → Option String → Type 0 where
  cancelled : e.event_type ≡ "customer.subscription.deleted" → Asks prices e "free" none
  paid :
      (e.event_type ≡ "customer.subscription.created")
        ⊎ (e.event_type ≡ "customer.subscription.updated")
      → is_given e.price_id ≡ true
      → e.status ≡ some "active"
      → Asks prices e (map_price_to_tier prices (or_none e.price_id)) e.id

module _ (loads : String → Option Features) (default_tier default_flags : Value)
    (is_uuid : String → Bool) (st : Settings) (now : Instant) (iso : String) where
  -- An event of a subscription names an organisation that exists, and asks for a tier: for `free` where the
  -- subscription is deleted, and for the tier of its price where it is created or changed and is active. The
  -- settings have the features of the tier, and the table of the settings keeps its constraint. Then the event is
  -- handled: the license that is read for the organisation is the tier with its features, and its row
  -- has them and the subscription; the license of every other organisation, the other rows and
  -- the users are as they were.
  pub subscription-IsLicensed :
      (e : Event) (k tier : String) (subscription : Option String) (f : Features) (o : Org)
      (db : Database)
      → Asks st.stripe_price_tier_map e tier subscription
      → get_tier_features st.stripe_tier_features tier ≡ some f
      → IsConstrained db.settings
      → is_for_user is_uuid st now iso e ≡ false
      → e.metadata_org_id ≡ some k
      → k ≢ ""
      → is_uuid k ≡ true
      → rows (λ x. x.id == k) db.orgs ≡ o ∷ []
      → (after : Database) × (handle is_uuid st now iso e db ≡ (handled, after))
        × IsLicensed loads default_tier default_flags o tier f subscription db after
  subscription-IsLicensed e k tier subscription f o db (cancelled event) has_tier one for_org named
        filled uuid row =
      let there =
        named_org loads default_tier default_flags is_uuid st now iso e k o db for_org named filled
          uuid row in
      let (after, set, licensed) =
        set_license-IsLicensed loads default_tier default_flags is_uuid st now iso "free"
          "cancelled" f none o db has_tier one in
      (
        after,
        deleted loads default_tier default_flags is_uuid st now iso e o db event for_org there
            ∙ set,
        licensed,
      )
  subscription-IsLicensed e k tier subscription f o db (paid event priced active) has_tier one
        for_org named filled uuid row =
      let there =
        named_org loads default_tier default_flags is_uuid st now iso e k o db for_org named filled
          uuid row in
      let (after, set, licensed) =
        set_license-IsLicensed loads default_tier default_flags is_uuid st now iso tier "active" f
          e.id o db has_tier one in
      (
        after,
        changed loads default_tier default_flags is_uuid st now iso e o db event for_org there
            ∙ paid_for loads default_tier default_flags is_uuid st now iso e o db priced active
            ∙ set,
        licensed,
      )
