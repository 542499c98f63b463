-- ===== src/Billing/PlanAccess.antt =====
-- src/modules/billing/plan-access.service.ts and requires-plan.guard.ts: the plan of a user, kept for
-- a while, and the guard of the routes that need a plan.
pub mod Laws
use prismacv_backend.Shared.{
  ℕ, ◌+◌, ◌*◌, String, Bool, true, false, ◌||◌, Option, none, some, List, [], ◌∷◌, map,
  if◌then◌else◌, ltb, str_eq, or_default, Result, ok, err, M, pure, throw, lift, guard, or_throw,
  ◌>>=◌, ◌>>◌, not_found, unauthorized, internal, plan_required, truthy,
}
use prismacv_backend.Host.{Host}
use prismacv_backend.Auth.Model.{PrismaUser, UserPlan, free, pro, team}
use prismacv_backend.Billing.Model.{Plan, Subscription, BillingPrisma, Billing, CachedPlan, put}

abbrev pub plan_text : UserPlan → String
plan_text free = "FREE"
plan_text pro = "PRO"
plan_text team = "TEAM"

abbrev pub same_plan : UserPlan → UserPlan → Bool
same_plan free free = true
same_plan pro pro = true
same_plan team team = true
same_plan _ _ = false

-- `paidStatuses.has(status)`
unfoldable pub is_paid : String → Bool
is_paid status =
    str_eq status "active"
    || str_eq status "trialing"
    || str_eq status "past_due"
    || str_eq status "unpaid"

-- The plan that was kept, unless its time is over.
abbrev pub kept_plan : ℕ → Option CachedPlan → Option UserPlan
kept_plan now none = none
kept_plan now (some c) = if ltb now c.expires_at then some c.plan else none

abbrev pub resolved_plan : PrismaUser → Option (Subscription × Plan) → UserPlan
resolved_plan u none = u.plan
resolved_plan u (some (s, x)) = if is_paid s.status then x.code else u.plan

abbrev pub with_plan : Subscription → Option Plan → Result (Option (Subscription × Plan))
with_plan s none = err (internal "Field plan is required to return data, got null instead.")
with_plan s (some x) = ok (some (s, x))

-- `@RequiresPlan(options)`
pub record RequiresPlanOptions : Type 0 where
  pub plans : List UserPlan
  pub feature : String
  pub message : Option String

-- `requiredPlans.includes(currentPlan)`
unfoldable pub has_access : UserPlan → List UserPlan → Bool
has_access current [] = false
has_access current (x ∷ xs) = same_plan x current || has_access current xs

module _ (p : BillingPrisma) where
  unfoldable pub invalidate : String → M (Billing p) (Unit {0})
  invalidate user_id b = (ok tt, record b { cache = put user_id none b.cache })

  -- `include: { subscription: { include: { plan: true } } }`: the client fails on a subscription
  -- whose plan is missing.
  abbrev pub include_plan :
      p.plans.Rows → Option Subscription → Result (Option (Subscription × Plan))
  include_plan plans none = ok none
  include_plan plans (some s) = with_plan s (p.plans.find plans s.plan_id)

module _ (host : Host) where
  pub ttl : ℕ
  ttl = or_default (host.config_number "BILLING_PLAN_CACHE_TTL_SECONDS") 60 * 1000

  module _ (p : BillingPrisma) where
    pub find_subscription : String → M (Billing p) (Option (Subscription × Plan))
    find_subscription user_id b =
        (include_plan p b.plans (p.subscriptions.find b.subscriptions user_id), b)

    abbrev pub keep : String → CachedPlan → M (Billing p) (Unit {0})
    keep user_id c b = (ok tt, record b { cache = put user_id (some c) b.cache })

    -- What follows where no plan is kept.
    pub load_plan : ℕ → String → M (Billing p) UserPlan
    unfolding ttl find_subscription
    load_plan kept_now user_id = do
      found ← λ b. (ok (p.users.find b.users user_id), b)
      user ← or_throw found (not_found "User not found")
      subscription ← find_subscription user_id
      let plan = resolved_plan user subscription
      keep user_id (record { plan = plan; expires_at = kept_now + ttl })
      pure plan

    abbrev pub or_load : ℕ → String → Option UserPlan → M (Billing p) UserPlan
    or_load kept_now user_id none = load_plan kept_now user_id
    or_load kept_now user_id (some plan) = pure plan

    -- `now` and `kept_now` are the two readings of the clock.
    unfoldable pub get_user_plan : ℕ → ℕ → String → M (Billing p) UserPlan
    unfolding load_plan
    get_user_plan now kept_now user_id b =
        or_load kept_now user_id (kept_plan now (b.cache user_id)) b

    abbrev pub refusal : UserPlan → RequiresPlanOptions → M (Billing p) Bool
    refusal plan options = throw (
        plan_required
          (or_default options.message "This feature requires a higher subscription plan.")
          options.feature (plan_text plan) (map plan_text options.plans))

    abbrev pub check_plan : RequiresPlanOptions → UserPlan → M (Billing p) Bool
    check_plan options plan =
        if has_access plan options.plans then pure true else refusal plan options

    -- The options of the route, if it has any, and the id of the user of the request.
    unfoldable pub can_activate :
        ℕ → ℕ → Option RequiresPlanOptions → Option String → M (Billing p) Bool
    unfolding get_user_plan has_access
    can_activate now kept_now none user = pure true
    can_activate now kept_now (some options) user = do
      user_id ← or_throw (truthy user) (unauthorized "Authentication required")
      plan ← get_user_plan now kept_now user_id
      check_plan options plan
