-- ===== src/Billing/Handlers.antt =====
-- StripeWebhookView of api/views_licensing.py. `parse` reads a body as an event, none where it is not JSON.
use django_boilerplate.Prelude.{
  String, Bool, not, ◌&&◌, ◌||◌, Option, none, some, ◌==◌, if◌then◌else◌, Instant,
}
use django_boilerplate.Crypto.{Digests}
use django_boilerplate.Billing.Signature.{or_none, verify_stripe_signature}
use django_boilerplate.Billing.{
  one_of, Org, Profile, Database, Settings, Event, Ending, handled, raised, Found, found, missing,
  failed, map_price_to_tier, remove_from, is_text, is_given, is_user_id, set_org, get_org, find_org,
  find_user_profile, set_stripe_sync_status, set_org_license, set_user_license,
}

pub data Reply : Type 0 where
  not_configured : Reply
  invalid_signature : Reply
  malformed : Reply
  received : Ending → Reply

module _ (is_uuid : String → Bool) (st : Settings) (now : Instant) (iso : String) where
  unfoldable pub with_org :
      Found Org → (Org → Database → Ending × Database) → Database → Ending × Database
  with_org (found o) k db = k o db
  with_org missing k db = (handled, db)
  with_org failed k db = (raised, db)

  with_profile :
      Found Profile → (Profile → Database → Ending × Database) → Database → Ending × Database
  with_profile (found p) k db = k p db
  with_profile missing k db = (handled, db)
  with_profile failed k db = (raised, db)

  -- `_handle_checkout_completed`
  new_subscription : Event → Org → Database → Ending × Database
  new_subscription e o db = (
    handled,
    set_org o.id
        (λ x. record x {
          stripe_subscription_id = e.subscription;
          stripe_customer_id =
              if is_given e.customer && not (is_given x.stripe_customer_id)
              then e.customer
              else x.stripe_customer_id;
        })
        db,
  )

  unfoldable pub checkout_completed : Event → Database → Ending × Database
  unfolding new_subscription with_org get_org one_of
  checkout_completed e db =
      if is_given e.metadata_org_id
      then with_org (get_org is_uuid st now iso (or_none e.metadata_org_id) db) (new_subscription e)
          db
      else (handled, db)

  abbrev pub is_active : Option String → Bool
  is_active status = is_text status "active"

  abbrev pub is_unpaid : Option String → Bool
  is_unpaid status = is_text status "past_due" || is_text status "unpaid"

  unfoldable pub update_org : Event → Org → Database → Ending × Database
  update_org e o db =
      if is_given e.price_id && is_active e.status
      then set_org_license is_uuid st now iso
          (map_price_to_tier st.stripe_price_tier_map (or_none e.price_id)) e.id "active" o db
      else if is_unpaid e.status
      then set_stripe_sync_status is_uuid st now iso o (or_none e.status) db
      else (handled, db)

  update_user : Event → Profile → Database → Ending × Database
  update_user e p db =
      if is_given e.price_id && is_active e.status
      then set_user_license is_uuid st now iso
          (map_price_to_tier st.stripe_price_tier_map (or_none e.price_id)) e.id p db
      else (handled, db)

  -- `_update_org_from_subscription`
  unfoldable pub update_org_from_subscription : Event → Database → Ending × Database
  unfolding update_org with_org
  update_org_from_subscription e db =
      with_org (find_org is_uuid st now iso (some (or_none e.metadata_org_id)) e.customer db)
        (update_org e) db

  -- The key of the user in the metadata's organisation, none where that is none of a user.
  abbrev pub user_id_of : Event → Option String
  user_id_of e =
      if is_user_id (or_none e.metadata_org_id)
      then some (remove_from 0 (or_none e.metadata_org_id))
      else none

  -- `_update_user_from_subscription`
  unfoldable pub update_user_from_subscription : Event → Database → Ending × Database
  unfolding update_user with_profile remove_from
  update_user_from_subscription e db =
      with_profile (find_user_profile is_uuid st now iso (user_id_of e) e.customer db)
        (update_user e) db

  -- The routing of `_update_from_subscription` and of `_handle_subscription_deleted`.
  abbrev pub is_for_user : Event → Bool
  is_for_user e = is_text e.metadata_type "user" || is_user_id (or_none e.metadata_org_id)

  -- `_update_from_subscription`
  unfoldable pub update_from_subscription : Event → Database → Ending × Database
  update_from_subscription e db =
      if is_for_user e
      then update_user_from_subscription e db
      else update_org_from_subscription e db

  -- `_handle_user_subscription_deleted` and `_handle_org_subscription_deleted`
  unfoldable pub subscription_deleted : Event → Database → Ending × Database
  unfolding with_org with_profile remove_from
  subscription_deleted e db =
      if is_for_user e
      then with_profile (find_user_profile is_uuid st now iso (user_id_of e) e.customer db)
          (set_user_license is_uuid st now iso "free" none) db
      else with_org (find_org is_uuid st now iso (some (or_none e.metadata_org_id)) e.customer db)
          (set_org_license is_uuid st now iso "free" none "cancelled") db

  -- `_handle_payment_failed`
  unfoldable pub payment_failed : Event → Database → Ending × Database
  unfolding with_org
  payment_failed e db =
      with_org (find_org is_uuid st now iso none e.customer db)
        (λ o. set_stripe_sync_status is_uuid st now iso o "payment_failed") db

  -- `_get_handler`, and the call of the handler.
  unfoldable pub handle : Event → Database → Ending × Database
  handle e db =
      if e.event_type == "checkout.session.completed"
      then checkout_completed e db
      else if e.event_type == "customer.subscription.created"
      then update_from_subscription e db
      else if e.event_type == "customer.subscription.updated"
      then update_from_subscription e db
      else if e.event_type == "customer.subscription.deleted"
      then subscription_deleted e db
      else if e.event_type == "invoice.payment_failed"
      then payment_failed e db
      else (handled, db)

  module _ (d : Digests) (parse : String → Option Event) where
    received_event : Option Event → Database → Reply × Database
    received_event none db = (malformed, db)
    received_event (some e) db = let (ending, after) = handle e db in (received ending, after)

    -- `StripeWebhookView.post`
    unfoldable pub post : (sig_header raw_body : String) → Database → Reply × Database
    unfolding received_event
    post sig_header raw_body db =
        if st.stripe_enabled && st.stripe_webhook_secret == ""
        then (not_configured, db)
        else if st.stripe_enabled
            && not (verify_stripe_signature d 300 raw_body st.stripe_webhook_secret now sig_header)
        then (invalid_signature, db)
        else if raw_body == ""
        then (received handled, db)
        else received_event (parse raw_body) db
