-- ===== src/Billing/Sync/Laws.antt =====
-- What a synchronisation that returns has written, and that one that fails has written nothing.
use prismacv_backend.Shared.{
  ◌≡◌, sym, ap, ◌∙◌, String, some, ok, err, Error, truthy, arith, ◌⊎◌, inl, inr, Option-cases,
  Result-cases,
}
use prismacv_backend.Auth.Model.{PrismaUser}
use prismacv_backend.Auth.Patch.{is_value}
use prismacv_backend.Billing.Model.{Plan, BillingPrisma, Billing}
use prismacv_backend.Billing.PlanAccess.{invalidate}
use prismacv_backend.Billing.Sync.{
  StripeSubscription, extract_customer_id, map_stripe_status_to_user_plan, subscribed, price_plan,
  resolve_plan_from_price_id, upsert, write_subscription, sync_user, sync_customer,
  sync_subscription_from_stripe,
}
use prismacv_backend.Billing.Sync.Rows.{
  Synced, write_subscription-Synced, chosen, chosen-found, or_pro_lem,
}

module _ (p : BillingPrisma) where
  module _ (id customer_id : String) (s : StripeSubscription) (u : PrismaUser)
      (b b' : Billing p) where
    pub sync_user-Synced :
        p.users.find b.users u.id ≡ some u
        → sync_user p id customer_id s (some u) b ≡ (ok tt, b')
        → (plan : Plan) × (chosen p (price_plan p (truthy s.price) b) b ≡ some plan)
          × Synced p s u plan customer_id b b'
    unfolding resolve_plan_from_price_id write_subscription invalidate
    sync_user-Synced g h =
        let o = price_plan p (truthy s.price) b in
        elim (Option-cases (chosen p o b)) [
          | inl e ↦ ground (arith, h, or_pro_lem p o b, e)
          | inr (plan, e) ↦
              elim (Result-cases (
                p.users.update b.users u.id
                  (subscribed (map_stripe_status_to_user_plan s.status plan.code) customer_id))) [
                    | inr (x, failed) ↦ ground (arith, h, or_pro_lem p o b, e, failed)
                    | inl ((u', users), updated) ↦
                        elim (Result-cases (
                          upsert p id u.id s plan b.subscriptions
                            (p.subscriptions.find b.subscriptions u.id))) [
                              | inr (x, failed) ↦
                                  ground (arith, h, or_pro_lem p o b, e, updated, failed)
                              | inl (rows, stored) ↦ (
                                plan,
                                e,
                                write_subscription-Synced p id customer_id s u plan b b' users u'
                                    rows (chosen-found p (truthy s.price) b plan e) g updated stored
                                    (ground (arith, h, or_pro_lem p o b, e, updated, stored)),
                              )
                            ]
                  ]
        ]

    sync_user-err : (x : Error) → sync_user p id customer_id s (some u) b ≡ (err x, b') → b' ≡ b
    unfolding resolve_plan_from_price_id write_subscription invalidate
    sync_user-err x h =
        let o = price_plan p (truthy s.price) b in
        elim (Option-cases (chosen p o b)) [
          | inl e ↦ ground (arith, h, or_pro_lem p o b, e)
          | inr (plan, e) ↦
              elim (Result-cases (
                p.users.update b.users u.id
                  (subscribed (map_stripe_status_to_user_plan s.status plan.code) customer_id))) [
                    | inr (y, failed) ↦ ground (arith, h, or_pro_lem p o b, e, failed)
                    | inl ((u', users), updated) ↦
                        elim (Result-cases (
                          upsert p id u.id s plan b.subscriptions
                            (p.subscriptions.find b.subscriptions u.id))) [
                              | inr (y, failed) ↦
                                  ground (arith, h, or_pro_lem p o b, e, updated, failed)
                              | inl (rows, stored) ↦
                                  ground (arith, h, or_pro_lem p o b, e, updated, stored)
                            ]
                  ]
        ]

  -- A synchronisation that fails has written nothing.
  pub sync_subscription_from_stripe-err :
      (id : String) (s : StripeSubscription) (b b' : Billing p) (x : Error)
      → sync_subscription_from_stripe p id s b ≡ (err x, b')
      → b' ≡ b
  unfolding sync_subscription_from_stripe
  sync_subscription_from_stripe-err id s b b' x h =
      elim (Option-cases (truthy (extract_customer_id s.customer))) [
        | inl e ↦ ground (arith, h, e)
        | inr (customer_id, e) ↦
            elim (Option-cases
              (p.users.find_first b.users (λ u. is_value u.stripe_customer_id customer_id))) [
                | inl none_such ↦ ground (arith, h, e, none_such)
                | inr (u, found) ↦ sync_user-err id customer_id s u b b' x (
                    ap (λ o. sync_user p id customer_id s o b) (sym found)
                    ∙ ap (λ o. sync_customer p id s o b) (sym e)
                    ∙ h)
              ]
      ]

  -- A synchronisation that returns has changed nothing, or has written to the user of the customer.
  pub sync_subscription_from_stripe-Synced :
      (id : String) (s : StripeSubscription) (b b' : Billing p)
      → sync_subscription_from_stripe p id s b ≡ (ok tt, b')
      → (b' ≡ b)
        ⊎ ((u : PrismaUser) × (plan : Plan) × (customer_id : String) × Synced p s u plan customer_id
              b b')
  unfolding sync_subscription_from_stripe
  sync_subscription_from_stripe-Synced id s b b' h =
      elim (Option-cases (truthy (extract_customer_id s.customer))) [
        | inl e ↦ inl (ground (arith, h, e))
        | inr (customer_id, e) ↦
            let owner =
              p.users.find_first b.users (λ u. is_value u.stripe_customer_id customer_id) in
            elim (Option-cases owner) [
              | inl none_such ↦ inl (ground (arith, h, e, none_such))
              | inr (u, found) ↦
                  let (plan, picked, done) =
                    sync_user-Synced id customer_id s u b b'
                      (p.users.find_first_sound b.users _ u found).0
                      (ap (λ o. sync_user p id customer_id s o b) (sym found)
                        ∙ ap (λ o. sync_customer p id s o b) (sym e)
                        ∙ h) in
                  inr (u, plan, customer_id, done)
            ]
      ]
