-- ===== src/Billing/Sync/Answer.antt =====
-- The plan that is answered after a synchronisation, and the kept plans.
use prismacv_backend.Shared.{
  ℕ, ◌≡◌, ◌≢◌, sym, ap, ◌∙◌, String, none, some, str_eq, ok, truthy, arith, inl, inr, Bool-cases,
  eq_iff, eq_refl, str_eq-false,
}
use prismacv_backend.Host.{Host}
use prismacv_backend.Auth.Model.{PrismaUser}
use prismacv_backend.Auth.Patch.{is_value}
use prismacv_backend.Billing.Model.{Plan, BillingPrisma, Billing}
use prismacv_backend.Billing.PlanAccess.{is_paid, get_user_plan}
use prismacv_backend.Billing.PlanAccess.Laws.{plan_now, IsCoherent, load_plan_lem}
use prismacv_backend.Billing.Sync.{
  StripeSubscription, extract_customer_id, map_stripe_status_to_user_plan, price_plan, sync_user,
  sync_customer, sync_subscription_from_stripe,
}
use prismacv_backend.Billing.Sync.Rows.{Synced, chosen}
use prismacv_backend.Billing.Sync.Laws.{sync_user-Synced}

module _ (p : BillingPrisma) where
  module _ {s : StripeSubscription} {u : PrismaUser} {plan : Plan} {customer_id : String}
      {b b' : Billing p} (done : Synced p s u plan customer_id b b') where
    -- After it, the plan of the user is the plan of the status.
    Synced-plan_now : plan_now p b' u.id ≡ some (map_stripe_status_to_user_plan s.status plan.code)
    unfolding plan_now map_stripe_status_to_user_plan
    Synced-plan_now = elim (Bool-cases (is_paid s.status)) [
      | inl paid ↦ rw (
        done.plans_after,
        done.users_after u.id,
        done.subscriptions_after u.id,
        eq_refl u.id,
        done.user_found,
        done.row_plan,
        done.plan_found,
        done.row_status,
        paid,
      )
      | inr unpaid ↦ rw (
        done.plans_after,
        done.users_after u.id,
        done.subscriptions_after u.id,
        eq_refl u.id,
        done.user_found,
        done.row_plan,
        done.plan_found,
        done.row_status,
        unpaid,
      )
    ]

    Synced-others : (j : String) → u.id ≢ j → plan_now p b' j ≡ plan_now p b j
    unfolding plan_now
    Synced-others j other =
        let apart = str_eq-false u.id j other in
        rw (done.plans_after, done.users_after j, done.subscriptions_after j, apart)

    pub Synced-IsCoherent : IsCoherent p b → IsCoherent p b'
    Synced-IsCoherent coherent j c k = elim (Bool-cases (str_eq u.id j)) [
      | inl same ↦ ground (arith, k, same, ap (λ m. m j) done.cache_after)
      | inr other ↦ ground (
        arith,
        k,
        other,
        ap (λ m. m j) done.cache_after,
        Synced-others j,
        coherent j c,
        eq_iff u.id j,
      )
    ]

  module _ (host : Host) where
    -- After a synchronisation that returns, for a customer that is a user, the plan that is answered
    -- for the user is the plan of the new status at once, whatever was kept before; the plan of the
    -- status is made from the plan of the price, or PRO where the price has none.
    pub sync_then_get_user_plan :
        (id : String) (s : StripeSubscription) (b b' : Billing p) (customer_id : String)
        (u : PrismaUser) (now kept_now : ℕ)
        → sync_subscription_from_stripe p id s b ≡ (ok tt, b')
        → truthy (extract_customer_id s.customer) ≡ some customer_id
        → p.users.find_first b.users (λ x. is_value x.stripe_customer_id customer_id) ≡ some u
        → (plan : Plan) × (chosen p (price_plan p (truthy s.price) b) b ≡ some plan)
          × ((get_user_plan host p now kept_now u.id b').0
              ≡ ok (map_stripe_status_to_user_plan s.status plan.code))
    unfolding sync_subscription_from_stripe get_user_plan
    sync_then_get_user_plan id s b b' customer_id u now kept_now h e found =
        let (plan, picked, done) =
          sync_user-Synced p id customer_id s u b b'
            (p.users.find_first_sound b.users (λ x. is_value x.stripe_customer_id customer_id) u
              found).0
            (ap (λ o. sync_user p id customer_id s o b) (sym found)
              ∙ ap (λ o. sync_customer p id s o b) (sym e)
              ∙ h) in
        let cleared : b'.cache u.id ≡ none =
          ground (arith, ap (λ m. m u.id) done.cache_after, eq_refl u.id) in
        (
          plan,
          picked,
          rw cleared (
              ap (λ r. r.0)
                (load_plan_lem p host b' kept_now u.id
                  (map_stripe_status_to_user_plan s.status plan.code) (Synced-plan_now done))),
        )
