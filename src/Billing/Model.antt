-- ===== src/Billing/Model.antt =====
-- What the billing services keep: the users, subscriptions and plans of the database, the plans that
-- PlanAccessService remembers, the webhook events that BillingService has processed, and the metrics
-- of the events.
use prismacv_backend.Shared.{ℕ, String, Bool, Option, List, [], ◌∷◌, str_eq, if◌then◌else◌}
use prismacv_backend.Shared.Table.{Table}
use prismacv_backend.Auth.Model.{PrismaUser, UserPlan, user_key, user_unique}

pub record Plan : Type 0 where
  pub id : String
  pub code : UserPlan
  pub stripe_price_monthly : Option String
  pub stripe_price_yearly : Option String
  pub is_active : Bool

-- A row of `subscriptions`; the services reach it by `userId`, which is unique.
pub record Subscription : Type 0 where
  pub id : String
  pub user_id : String
  pub plan_id : String
  pub status : String
  pub stripe_subscription_id : Option String
  pub stripe_price_id : Option String
  pub current_period_start : Option ℕ
  pub current_period_end : Option ℕ
  pub cancel_at_period_end : Bool

abbrev pub plan_key : Plan → String
plan_key x = x.id

abbrev pub plan_unique : Plan → List (Option String)
plan_unique x = []

abbrev pub subscription_key : Subscription → String
subscription_key s = s.user_id

abbrev pub subscription_unique : Subscription → List (Option String)
subscription_unique s = s.stripe_subscription_id ∷ []

pub record BillingPrisma : Type 1 where
  pub users : Table PrismaUser user_key user_unique
  pub subscriptions : Table Subscription subscription_key subscription_unique
  pub plans : Table Plan plan_key plan_unique

pub record CachedPlan : Type 0 where
  pub plan : UserPlan
  pub expires_at : ℕ

pub data EventStatus : Type 0 where
  ignored success error : EventStatus

pub record Billing (p : BillingPrisma) : Type 0 where
  pub users : p.users.Rows
  pub subscriptions : p.subscriptions.Rows
  pub plans : p.plans.Rows
  pub cache : String → Option CachedPlan
  pub seen : List String
  pub metrics : List (String × EventStatus)

-- `Map.set` and `Map.delete`, on a map seen through its lookup.
abbrev pub put :
    String → Option CachedPlan → (String → Option CachedPlan) → String → Option CachedPlan
put k v m j = if str_eq k j then v else m j
