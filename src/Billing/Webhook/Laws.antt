-- ===== src/Billing/Webhook/Laws.antt =====
-- What a delivery of an event leaves.
use prismacv_backend.Shared.{
  ◌≡◌, ◌≢◌, sym, ap, ◌∙◌, subst, String, Bool, true, ◌||◌, Option, none, some, List, ◌∷◌, str_eq,
  Error, ok, err, truthy, arith, ◌⊎◌, inl, inr, Bool-cases, Option-cases, Result-cases,
}
use prismacv_backend.Host.{Host}
use prismacv_backend.Billing.Model.{BillingPrisma, Billing, EventStatus, ignored, success, error}
use prismacv_backend.Billing.Seen.{is_processed, mark_processed, cache_limit}
use prismacv_backend.Billing.Seen.Laws.{is_processed-mark_processed}
use prismacv_backend.Billing.PlanAccess.Laws.{IsCoherent, plan_now}
use prismacv_backend.Billing.Sync.{StripeSubscription, sync_subscription_from_stripe}
use prismacv_backend.Billing.Sync.Laws.{
  sync_subscription_from_stripe-Synced, sync_subscription_from_stripe-err,
}
use prismacv_backend.Billing.Sync.Answer.{Synced-IsCoherent}
use prismacv_backend.Billing.Webhook.{
  StripeEvent, Stripe, session_subscription_id, process_webhook, handle_new, handle_stripe_event,
  sync_session, recorded, get_stripe, trimmed,
}

module _ (host : Host) (stripe : Stripe) (p : BillingPrisma) where
  -- The service is configured, and the signature of the body is right: it carries the event.
  pub record Accepted (raw_body : String) (signature : Option String) (event : StripeEvent)
      : Type 0 where
    pub key : String
    pub configured : trimmed host stripe p (host.config_text "STRIPE_SECRET_KEY") ≡ some key
    pub secret : String
    pub has_secret : truthy (host.config_text "STRIPE_WEBHOOK_SECRET") ≡ some secret
    pub signed : String
    pub has_signature : truthy signature ≡ some signed
    pub verified : stripe.construct_event raw_body signed secret ≡ some event

  process_webhook-Accepted :
      (draw raw_body : String) (signature : Option String) (event : StripeEvent) (b : Billing p)
      → Accepted raw_body signature event
      → process_webhook host stripe p draw raw_body signature b
        ≡ handle_new host stripe p draw event b
  unfolding process_webhook get_stripe
  process_webhook-Accepted draw raw_body signature event b a =
      rw (a.configured, a.has_secret, a.has_signature, a.verified)

  -- What a handled event leaves of the state: nothing new, or one synchronisation.
  abbrev IsHandled : Billing p → Billing p → Type 0
  IsHandled b b' =
      (b' ≡ b)
      ⊎ ((id : String) × (s : StripeSubscription) × (sync_subscription_from_stripe p id s b
            ≡ (ok tt, b')))

  sync_session-IsHandled :
      (draw : String) (o : Option String) (b b' : Billing p)
      → sync_session host stripe p draw o b ≡ (ok tt, b')
      → IsHandled b b'
  unfolding get_stripe
  sync_session-IsHandled draw none b b' h = inl (ground (arith, h))
  sync_session-IsHandled draw (some id) b b' h =
      elim (Option-cases (trimmed host stripe p (host.config_text "STRIPE_SECRET_KEY"))) [
        | inl e ↦ ground (arith, h, e)
        | inr (key, e) ↦ elim (Result-cases (stripe.retrieve id)) [
          | inr (x, e') ↦ ground (arith, h, e, e')
          | inl (s, e') ↦ inr (draw, s, ground (arith, h, e, e'))
        ]
      ]

  sync_session-err :
      (draw : String) (o : Option String) (b b' : Billing p) (x : Error)
      → sync_session host stripe p draw o b ≡ (err x, b')
      → b' ≡ b
  unfolding get_stripe
  sync_session-err draw none b b' x h = ground (arith, h)
  sync_session-err draw (some id) b b' x h =
      elim (Option-cases (trimmed host stripe p (host.config_text "STRIPE_SECRET_KEY"))) [
        | inl e ↦ ground (arith, h, e)
        | inr (key, e) ↦ elim (Result-cases (stripe.retrieve id)) [
          | inr (y, e') ↦ ground (arith, h, e, e')
          | inl (s, e') ↦
              sync_subscription_from_stripe-err p draw s b b' x (ground (arith, h, e, e'))
        ]
      ]

  module _ (draw : String) (event : StripeEvent) (b b' : Billing p) where
    abbrev is_subscription_event : Bool
    is_subscription_event =
        str_eq event.type "customer.subscription.created"
        || str_eq event.type "customer.subscription.updated"
        || str_eq event.type "customer.subscription.deleted"

    handle_stripe_event-IsHandled :
        handle_stripe_event host stripe p draw event b ≡ (ok tt, b') → IsHandled b b'
    unfolding handle_stripe_event
    handle_stripe_event-IsHandled h =
        elim (Bool-cases (str_eq event.type "checkout.session.completed")) [
          | inl e ↦
              sync_session-IsHandled draw
                (truthy (session_subscription_id event.session_subscription)) b b'
                (ground (arith, h, e))
          | inr e ↦ elim (Bool-cases is_subscription_event) [
            | inl e' ↦ inr (draw, event.subscription, ground (arith, h, e, e'))
            | inr e' ↦ inl (ground (arith, h, e, e'))
          ]
        ]

    handle_stripe_event-err :
        (x : Error) → handle_stripe_event host stripe p draw event b ≡ (err x, b') → b' ≡ b
    unfolding handle_stripe_event
    handle_stripe_event-err x h =
        elim (Bool-cases (str_eq event.type "checkout.session.completed")) [
          | inl e ↦
              sync_session-err draw (truthy (session_subscription_id event.session_subscription)) b
                b' x (ground (arith, h, e))
          | inr e ↦ elim (Bool-cases is_subscription_event) [
            | inl e' ↦
                sync_subscription_from_stripe-err p draw event.subscription b b' x
                  (ground (arith, h, e, e'))
            | inr e' ↦ ground (arith, h, e, e')
          ]
        ]

  IsHandled-seen : (b b' : Billing p) → IsHandled b b' → b'.seen ≡ b.seen
  IsHandled-seen b b' (inl e) = ap (λ (d : Billing p). d.seen) e
  IsHandled-seen b b' (inr (id, s, e)) = elim (sync_subscription_from_stripe-Synced p id s b b' e) [
    | inl same ↦ ap (λ (d : Billing p). d.seen) same
    | inr (u, plan, customer_id, done) ↦ done.seen_after
  ]

  IsHandled-IsCoherent : (b b' : Billing p) → IsHandled b b' → IsCoherent p b → IsCoherent p b'
  IsHandled-IsCoherent b b' (inl e) c = subst (IsCoherent p) (sym e) c
  IsHandled-IsCoherent b b' (inr (id, s, e)) c =
      elim (sync_subscription_from_stripe-Synced p id s b b' e) [
        | inl same ↦ subst (IsCoherent p) (sym same) c
        | inr (u, plan, customer_id, done) ↦ Synced-IsCoherent p done c
      ]

  marked-IsCoherent :
      (b : Billing p) (seen : List String) (metrics : List (String × EventStatus))
      → IsCoherent p b
      → IsCoherent p (record b { seen = seen; metrics = metrics })
  unfolding plan_now
  marked-IsCoherent b seen metrics c = c

  module _ (draw raw_body : String) (signature : Option String) (event : StripeEvent)
      (b : Billing p) (a : Accepted raw_body signature event) where
    -- A delivery that fails after its signature was accepted leaves everything but the metrics as it
    -- was, so that the event is handled when it is delivered again.
    pub process_webhook-failed :
        (b' : Billing p) (x : Error)
        → process_webhook host stripe p draw raw_body signature b ≡ (err x, b')
        → b' ≡ recorded host stripe p event error b
    process_webhook-failed b' x h =
        let g = sym (process_webhook-Accepted draw raw_body signature event b a) ∙ h in
        let run = handle_stripe_event host stripe p draw event b in
        elim (Bool-cases (is_processed event.id b.seen)) [
          | inl old ↦ ground (arith, g, old)
          | inr new ↦ elim (Result-cases run.0) [
            | inl (u, e) ↦ ground (arith, g, new, e)
            | inr (y, e) ↦
                let same = handle_stripe_event-err draw event b run.1 y (ap (λ r. (r, run.1)) e) in
                ground (arith, g, new, e, same)
          ]
        ]

    -- An accepted delivery keeps the agreement of the kept plans with the database.
    pub process_webhook-IsCoherent :
        IsCoherent p b → IsCoherent p (process_webhook host stripe p draw raw_body signature b).1
    process_webhook-IsCoherent c =
        let g = process_webhook-Accepted draw raw_body signature event b a in
        let run = handle_stripe_event host stripe p draw event b in
        subst (λ r. IsCoherent p r.1) (sym g)
          (elim (Bool-cases (is_processed event.id b.seen)) [
            | inl old ↦ rw old (marked-IsCoherent b b.seen ((event.type, ignored) ∷ b.metrics) c)
            | inr new ↦ elim (Result-cases run.0) [
              | inl (u, e) ↦
                  rw (new, e)
                    (marked-IsCoherent run.1 (mark_processed (cache_limit host) event.id run.1.seen)
                      ((event.type, success) ∷ run.1.metrics)
                      (IsHandled-IsCoherent b run.1
                        (handle_stripe_event-IsHandled draw event b run.1 (ap (λ r. (r, run.1)) e))
                        c))
              | inr (y, e) ↦
                  rw (new, e)
                    (marked-IsCoherent run.1 run.1.seen ((event.type, error) ∷ run.1.metrics) (
                      subst (IsCoherent p)
                        (sym
                          (handle_stripe_event-err draw event b run.1 y (ap (λ r. (r, run.1)) e)))
                        c))
            ]
          ])

    delivered-seen :
        (b' : Billing p) (id : String)
        → process_webhook host stripe p draw raw_body signature b ≡ (ok tt, b')
        → event.id ≡ some id
        → id ≢ ""
        → is_processed (some id) b'.seen ≡ true
    delivered-seen b' id h e named =
        let g = sym (process_webhook-Accepted draw raw_body signature event b a) ∙ h in
        let run = handle_stripe_event host stripe p draw event b in
        elim (Bool-cases (is_processed (some id) b.seen)) [
          | inl old ↦ ground (arith, g, old, e)
          | inr new ↦ elim (Result-cases run.0) [
            | inr (y, e') ↦ ground (arith, g, new, e, e')
            | inl (u, e') ↦
                let same =
                  IsHandled-seen b run.1
                    (handle_stripe_event-IsHandled draw event b run.1 (ap (λ r. (r, run.1)) e')) in
                ground
                  (arith, g, new, e, e', same, is_processed-mark_processed host id b.seen named new)
          ]
        ]

    -- An event that was processed is processed once: a second delivery of an event with the same id,
    -- whatever its body, is acknowledged and changes the metrics alone.
    pub process_webhook_once :
        (b' : Billing p) (id : String)
        → process_webhook host stripe p draw raw_body signature b ≡ (ok tt, b')
        → event.id ≡ some id
        → id ≢ ""
        → (draw' raw_body' : String) (signature' : Option String) (event' : StripeEvent)
        → Accepted raw_body' signature' event'
        → event'.id ≡ some id
        → process_webhook host stripe p draw' raw_body' signature' b'
          ≡ (ok tt, recorded host stripe p event' ignored b')
    process_webhook_once b' id h e named draw' raw_body' signature' event' a' e' =
        let seen = delivered-seen b' id h e named in
        process_webhook-Accepted draw' raw_body' signature' event' b' a' ∙ rw (e', seen)
