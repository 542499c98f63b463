-- ===== src/Billing/Sync.antt =====
-- src/modules/billing/billing.service.ts: what an event on a Stripe subscription writes.
pub mod Rows
pub mod Laws
pub mod Answer
use prismacv_backend.Shared.{
  ℕ, ◌*◌, ◌==◌, String, Bool, true, false, ◌||◌, Option, none, some, List, [], ◌∷◌, if◌then◌else◌,
  str_eq, truthy, Result, ok, err, M, pure, or_throw, ◌>>=◌, ◌>>◌, unavailable,
}
use prismacv_backend.Auth.Model.{PrismaUser, UserPlan, free, pro}
use prismacv_backend.Auth.Patch.{is_value}
use prismacv_backend.Billing.Model.{Plan, Subscription, BillingPrisma, Billing}
use prismacv_backend.Billing.PlanAccess.{is_paid, same_plan, invalidate}

-- `string | { id?: string } | null`
pub data StripeRef : Type 0 where
  null : StripeRef
  text : String → StripeRef
  object : Option String → StripeRef

-- A value of unknown type.
pub data Unknown : Type 0 where
  finite_number : ℕ → Unknown
  other : Unknown

-- The fields that are read of a subscription of Stripe; `price` is `items.data[0]?.price?.id`.
pub record StripeSubscription : Type 0 where
  pub id : String
  pub customer : StripeRef
  pub price : Option String
  pub status : String
  pub current_period_start : Unknown
  pub current_period_end : Unknown
  pub cancel_at_period_end : Bool

unfoldable pub extract_customer_id : StripeRef → Option String
extract_customer_id null = none
extract_customer_id (text s) = if str_eq s "" then none else some s
extract_customer_id (object id) = id

unfoldable pub to_unix_seconds : Unknown → Option ℕ
to_unix_seconds (finite_number n) = some n
to_unix_seconds other = none

unfoldable pub to_date : Option ℕ → Option ℕ
to_date none = none
to_date (some seconds) = if seconds == 0 then none else some (seconds * 1000)

-- The four statuses of `activeStatuses` are those of `paidStatuses`.
unfoldable pub map_stripe_status_to_user_plan : String → UserPlan → UserPlan
map_stripe_status_to_user_plan status active_plan = if is_paid status then active_plan else free

-- The two halves of the upsert: the fields that it writes, and the row that it creates.
abbrev pub synced : StripeSubscription → Plan → Subscription → Subscription
synced s plan row = record row {
  plan_id = plan.id;
  status = s.status;
  stripe_subscription_id = some s.id;
  stripe_price_id = s.price;
  current_period_start = to_date (to_unix_seconds s.current_period_start);
  current_period_end = to_date (to_unix_seconds s.current_period_end);
  cancel_at_period_end = s.cancel_at_period_end;
}

abbrev pub created : String → String → StripeSubscription → Plan → Subscription
created id user_id s plan = record {
  id = id;
  user_id = user_id;
  plan_id = plan.id;
  status = s.status;
  stripe_subscription_id = some s.id;
  stripe_price_id = s.price;
  current_period_start = to_date (to_unix_seconds s.current_period_start);
  current_period_end = to_date (to_unix_seconds s.current_period_end);
  cancel_at_period_end = s.cancel_at_period_end;
}

abbrev pub subscribed : UserPlan → String → PrismaUser → PrismaUser
subscribed plan customer_id u = record u { plan = plan; stripe_customer_id = some customer_id }

module _ (p : BillingPrisma) where
  abbrev pub get_plan_by_code : UserPlan → M (Billing p) (Option Plan)
  get_plan_by_code code b = (ok (p.plans.find_first b.plans (λ x. same_plan x.code code)), b)

  abbrev pub price_plan : Option String → Billing p → Option Plan
  price_plan none b = none
  price_plan (some price) b =
      p.plans.find_first b.plans
        (λ x. is_value x.stripe_price_monthly price || is_value x.stripe_price_yearly price)

  unfoldable pub resolve_plan_from_price_id : Option String → M (Billing p) (Option Plan)
  resolve_plan_from_price_id price b = (ok (price_plan (truthy price) b), b)

  -- `mappedPlan ?? (await this.getPlanByCode(UserPlan.PRO))`
  abbrev pub or_pro : Option Plan → M (Billing p) (Option Plan)
  or_pro none = get_plan_by_code pro
  or_pro (some plan) = pure (some plan)

  abbrev pub upsert :
      String
      → String
      → StripeSubscription
      → Plan
      → p.subscriptions.Rows
      → Option Subscription
      → Result p.subscriptions.Rows
  upsert id user_id s plan rows none = p.subscriptions.create rows (created id user_id s plan)
  upsert id user_id s plan rows (some row) =
      elim (p.subscriptions.update rows user_id (synced s plan)) [
        | ok (row', rows') ↦ ok rows'
        | err e ↦ err e
      ]

  -- The transaction: where one of the writes fails, none is kept.
  unfoldable pub write_subscription :
      String → String → String → StripeSubscription → Plan → M (Billing p) (Unit {0})
  write_subscription id user_id customer_id s plan b =
      elim (p.users.update b.users user_id
        (subscribed (map_stripe_status_to_user_plan s.status plan.code) customer_id)) [
          | err e ↦ (err e, b)
          | ok (u, users) ↦
              elim (upsert id user_id s plan b.subscriptions
                (p.subscriptions.find b.subscriptions user_id)) [
                  | err e ↦ (err e, b)
                  | ok rows ↦ (ok tt, record b { users = users; subscriptions = rows })
                ]
        ]

  abbrev pub sync_user :
      String → String → StripeSubscription → Option PrismaUser → M (Billing p) (Unit {0})
  sync_user id customer_id s none = pure tt
  sync_user id customer_id s (some user) = do
    mapped ← resolve_plan_from_price_id s.price
    found ← or_pro mapped
    plan ←
        or_throw found
          (unavailable "No billing plan is configured for Stripe subscription synchronization.")
    write_subscription id user.id customer_id s plan
    invalidate p user.id

  abbrev pub sync_customer : String → StripeSubscription → Option String → M (Billing p) (Unit {0})
  sync_customer id s none b = (ok tt, b)
  sync_customer id s (some customer_id) b =
      sync_user id customer_id s
        (p.users.find_first b.users (λ u. is_value u.stripe_customer_id customer_id)) b

  -- `id` is drawn by generateUuidv7. A subscription without a customer, or whose customer is no user,
  -- is skipped.
  unfoldable pub sync_subscription_from_stripe :
      String → StripeSubscription → M (Billing p) (Unit {0})
  sync_subscription_from_stripe id s = sync_customer id s (truthy (extract_customer_id s.customer))
