-- ===== src/Billing/Webhook.antt =====
-- src/modules/billing/billing.service.ts: `processWebhook`.
pub mod Laws
use prismacv_backend.Shared.{
  ℕ, String, Bool, true, false, ◌||◌, Option, none, some, List, [], ◌∷◌, if◌then◌else◌, str_eq,
  truthy, Result, ok, err, M, pure, throw, lift, or_throw, ◌>>=◌, ◌>>◌, bad_request, unavailable,
}
use prismacv_backend.Shared.Text.{trim}
use prismacv_backend.Host.{Host}
use prismacv_backend.Billing.Model.{BillingPrisma, Billing, EventStatus, ignored, success, error}
use prismacv_backend.Billing.Seen.{is_processed, mark_processed, cache_limit}
use prismacv_backend.Billing.Sync.{
  StripeRef, StripeSubscription, null, text, object, sync_subscription_from_stripe,
}

-- An event of Stripe: `data.object`, read as a checkout session or as a subscription.
pub record StripeEvent : Type 0 where
  pub id : Option String
  pub type : String
  pub session_subscription : StripeRef
  pub subscription : StripeSubscription

-- The client of Stripe: `webhooks.constructEvent(rawBody, signature, secret)`, `none` where it
-- throws, and `subscriptions.retrieve`.
pub record Stripe : Type 0 where
  pub construct_event : String → String → String → Option StripeEvent
  pub retrieve : String → Result StripeSubscription

abbrev pub session_subscription_id : StripeRef → Option String
session_subscription_id null = none
session_subscription_id (text s) = some s
session_subscription_id (object id) = id

module _ (host : Host) (stripe : Stripe) (p : BillingPrisma) where
  abbrev pub trimmed : Option String → Option String
  trimmed none = none
  trimmed (some key) = truthy (some (trim key))

  abbrev pub when_configured : Option String → M (Billing p) Stripe
  when_configured none =
      throw (unavailable "Stripe is not configured. Set STRIPE_SECRET_KEY first.")
  when_configured (some key) = pure stripe

  unfoldable pub get_stripe : M (Billing p) Stripe
  get_stripe = when_configured (trimmed (host.config_text "STRIPE_SECRET_KEY"))

  abbrev pub sync_session : String → Option String → M (Billing p) (Unit {0})
  sync_session draw none = pure tt
  sync_session draw (some subscription_id) = do
    client ← get_stripe
    subscription ← lift (client.retrieve subscription_id)
    sync_subscription_from_stripe p draw subscription

  unfoldable pub handle_stripe_event : String → StripeEvent → M (Billing p) (Unit {0})
  unfolding get_stripe
  handle_stripe_event draw event =
      if str_eq event.type "checkout.session.completed"
      then sync_session draw (truthy (session_subscription_id event.session_subscription))
      else if str_eq event.type "customer.subscription.created"
          || str_eq event.type "customer.subscription.updated"
          || str_eq event.type "customer.subscription.deleted"
      then sync_subscription_from_stripe p draw event.subscription
      else pure tt

  -- `recordStripeEvent`
  abbrev pub recorded : StripeEvent → EventStatus → Billing p → Billing p
  recorded event status b = record b { metrics = (event.type, status) ∷ b.metrics }

  abbrev pub mark_webhook_event_processed : Option String → Billing p → Billing p
  mark_webhook_event_processed id b = record b {
    seen = mark_processed (cache_limit host) id b.seen;
  }

  -- The `try` block: a failed event is not marked.
  abbrev pub finish : StripeEvent → Result (Unit {0}) → Billing p → Result (Unit {0}) × Billing p
  finish event (ok u) b = (ok tt, recorded event success (mark_webhook_event_processed event.id b))
  finish event (err e) b = (err e, recorded event error b)

  abbrev pub handle_once : String → StripeEvent → Bool → M (Billing p) (Unit {0})
  handle_once draw event true b = (ok tt, recorded event ignored b)
  handle_once draw event false b =
      finish event (handle_stripe_event draw event b).0 (handle_stripe_event draw event b).1

  abbrev pub handle_new : String → StripeEvent → M (Billing p) (Unit {0})
  handle_new draw event b = handle_once draw event (is_processed event.id b.seen) b

  unfoldable pub process_webhook : String → String → Option String → M (Billing p) (Unit {0})
  unfolding handle_stripe_event
  process_webhook draw raw_body signature = do
    client ← get_stripe
    secret ←
        or_throw (truthy (host.config_text "STRIPE_WEBHOOK_SECRET"))
          (unavailable "Stripe webhook secret is not configured.")
    signed ← or_throw (truthy signature) (bad_request "Missing Stripe signature header")
    event ←
        or_throw (client.construct_event raw_body signed secret)
          (bad_request "Invalid Stripe signature")
    handle_new draw event
