-- ===== src/Examples/Billing.antt =====
-- Runs of the theorems on plans, webhooks and checkouts.
use prismacv_backend.Shared.{
  ◌≡◌, ◌≢◌, refl, String, true, false, Option, none, some, [], ◌∷◌, truthy, Result, ok, err, arith,
  eq_iff, plan_required, unavailable, IsIn,
}
use prismacv_backend.Shared.Text.{trim, ◌&◌}
use prismacv_backend.Shared.Table.InMemory.{in_memory}
use prismacv_backend.Host.{Host}
use prismacv_backend.Auth.Model.{PrismaUser, free, pro, user_key, user_unique}
use prismacv_backend.Billing.Model.{
  Plan, Subscription, BillingPrisma, Billing, CachedPlan, ignored, success, error, plan_key,
  plan_unique, subscription_key, subscription_unique, put,
}
use prismacv_backend.Billing.PlanAccess.{
  RequiresPlanOptions, get_user_plan, can_activate, has_access, is_paid, same_plan, invalidate,
}
use prismacv_backend.Billing.PlanAccess.Laws.{
  plan_now, IsCoherent, get_user_plan-IsCoherent, can_activate_lem,
}
use prismacv_backend.Cv.Controller.{share_access}
use prismacv_backend.Billing.Seen.{is_processed, mark_processed, cache_limit, has, add}
use prismacv_backend.Billing.Seen.Laws.{mark_all, mark_all_window}
use prismacv_backend.Billing.Sync.{
  StripeSubscription, text, finite_number, null, sync_subscription_from_stripe, write_subscription,
  resolve_plan_from_price_id, map_stripe_status_to_user_plan, extract_customer_id, to_date,
  to_unix_seconds,
}
use prismacv_backend.Billing.Sync.Answer.{sync_then_get_user_plan}
use prismacv_backend.Billing.Sync.{price_plan}
use prismacv_backend.Billing.Sync.Rows.{chosen}
use prismacv_backend.Billing.Webhook.{
  StripeEvent, Stripe, process_webhook, handle_stripe_event, get_stripe, recorded,
}
use prismacv_backend.Billing.Webhook.Laws.{
  Accepted, process_webhook_once, process_webhook-failed, process_webhook-IsCoherent,
}
use prismacv_backend.Billing.Checkout.{
  CheckoutClient, create_checkout_session, create_portal_session, ensure_stripe_customer,
  resolve_price_id, resolve_frontend_url, request_for,
}
use prismacv_backend.Billing.Checkout.Laws.{create_checkout_session_sound}
use prismacv_backend.Examples.World.{example_host, ann}

abbrev host : Host
host = record example_host { config_text = λ key. some "test" }

abbrev tables : BillingPrisma
tables = record {
  users = in_memory user_key user_unique;
  subscriptions = in_memory subscription_key subscription_unique;
  plans = in_memory plan_key plan_unique;
}

abbrev customer : PrismaUser
customer = record ann { stripe_customer_id = some "cus_1" }

abbrev pro_plan : Plan
pro_plan = record {
  id = "p1";
  code = pro;
  stripe_price_monthly = some "price_1";
  stripe_price_yearly = none;
  is_active = true;
}

abbrev start : Billing tables
start = record {
  users = customer ∷ [];
  subscriptions = [];
  plans = pro_plan ∷ [];
  cache = λ id. none;
  seen = [];
  metrics = [];
}

abbrev active : StripeSubscription
active = record {
  id = "sub_1";
  customer = text "cus_1";
  price = some "price_1";
  status = "active";
  current_period_start = finite_number 1000;
  current_period_end = finite_number 2000;
  cancel_at_period_end = false;
}

abbrev row : Subscription
row = record {
  id = "s1";
  user_id = "u1";
  plan_id = "p1";
  status = "active";
  stripe_subscription_id = some "sub_1";
  stripe_price_id = some "price_1";
  current_period_start = some 1000000;
  current_period_end = some 2000000;
  cancel_at_period_end = false;
}

abbrev synced_state : Billing tables
synced_state = record start {
  users = record customer { plan = pro } ∷ [];
  subscriptions = row ∷ [];
  cache = put "u1" none (λ id. none);
}

sync_done : sync_subscription_from_stripe tables "s1" active start ≡ (ok tt, synced_state)
unfolding sync_subscription_from_stripe write_subscription resolve_plan_from_price_id
    map_stripe_status_to_user_plan is_paid extract_customer_id to_date to_unix_seconds invalidate
sync_done = ground arith

extracted : truthy (extract_customer_id (text "cus_1")) ≡ some "cus_1"
unfolding extract_customer_id
extracted = refl

sync_then_get_user_plan_example :
    (plan : Plan) × (chosen tables (price_plan tables (truthy (some "price_1")) start) start
      ≡ some plan)
    × ((get_user_plan host tables 10 11 "u1" synced_state).0
        ≡ ok (map_stripe_status_to_user_plan "active" plan.code))
sync_then_get_user_plan_example =
    sync_then_get_user_plan tables host "s1" active start synced_state "cus_1" customer 10 11
      sync_done extracted refl

start-IsCoherent : IsCoherent tables start
start-IsCoherent id c h = cc

current : plan_now tables start "u1" ≡ some free
unfolding plan_now
current = refl

get_user_plan-IsCoherent_example :
    (m : String → Option CachedPlan) × (get_user_plan host tables 10 11 "u1" start
      ≡ (ok free, record start { cache = m }))
    × IsCoherent tables (record start { cache = m })
get_user_plan-IsCoherent_example =
    get_user_plan-IsCoherent tables host start start-IsCoherent 10 11 "u1" free current

abbrev export_route : RequiresPlanOptions
export_route = record { plans = pro ∷ []; feature = "export"; message = none }

u1_named : ◌≢◌ {A = String} "u1" ""
u1_named h = ground (arith, h, eq_iff "u1" "")

can_activate_lem_example :
    (IsIn free (pro ∷ [])
      → (can_activate host tables 10 11 (some export_route) (some "u1") start).0 ≡ ok true)
    × (¬ IsIn free (pro ∷ [])
        → (can_activate host tables 10 11 (some export_route) (some "u1") start).0
          ≡ err (
              plan_required "This feature requires a higher subscription plan." "export" "FREE"
                ("PRO" ∷ [])))
can_activate_lem_example =
    can_activate_lem tables host start start-IsCoherent 10 11 "u1" free current export_route
      u1_named

share_access_test :
    share_access host tables 10 11 "u1" start
    ≡ err (
        plan_required "This feature requires a higher subscription plan." "cv_share" "FREE"
          ("PRO" ∷ "TEAM" ∷ []))
unfolding can_activate get_user_plan has_access
share_access_test = refl

e1_named : ◌≢◌ {A = String} "e1" ""
e1_named h = ground (arith, h, eq_iff "e1" "")

not_yet : is_processed (some "e1") ("e0" ∷ []) ≡ false
unfolding is_processed has
not_yet = refl

mark_all_window_example :
    is_processed
      (some "e1")
      (mark_all 3 ("e2" ∷ "e3" ∷ []) (mark_processed 3 (some "e1") ("e0" ∷ [])))
    ≡ true
mark_all_window_example =
    mark_all_window 3 "e1" ("e0" ∷ []) e1_named ("e2" ∷ "e3" ∷ []) not_yet (omega arith)

abbrev updated_event : StripeEvent
updated_event = record {
  id = some "e1";
  type = "customer.subscription.updated";
  session_subscription = null;
  subscription = active;
}

abbrev stripe : Stripe
stripe = record {
  construct_event = λ body signature secret. some updated_event;
  retrieve = λ id. ok active;
}

accepted : Accepted host stripe tables "body" (some "sig") updated_event
unfolding trim
accepted = record {
  key = "test";
  configured = refl;
  secret = "test";
  has_secret = refl;
  signed = "sig";
  has_signature = refl;
  verified = refl;
}

process_webhook-IsCoherent_example :
    IsCoherent tables (process_webhook host stripe tables "s1" "body" (some "sig") start).1
process_webhook-IsCoherent_example =
    process_webhook-IsCoherent host stripe tables "s1" "body" (some "sig") updated_event start
      accepted start-IsCoherent

abbrev delivered : Billing tables
delivered = record synced_state {
  seen = "e1" ∷ [];
  metrics = ("customer.subscription.updated", success) ∷ [];
}

webhook_done :
    process_webhook host stripe tables "s1" "body" (some "sig") start ≡ (ok tt, delivered)
unfolding trim process_webhook handle_stripe_event get_stripe is_processed has add mark_processed
    cache_limit sync_subscription_from_stripe write_subscription resolve_plan_from_price_id
    map_stripe_status_to_user_plan is_paid extract_customer_id to_date to_unix_seconds invalidate
webhook_done = ground arith

process_webhook_once_example :
    process_webhook host stripe tables "s2" "body" (some "sig") delivered
    ≡ (ok tt, recorded host stripe tables updated_event ignored delivered)
process_webhook_once_example =
    process_webhook_once host stripe tables "s1" "body" (some "sig") updated_event start accepted
      delivered "e1" webhook_done refl e1_named "s2" "body" (some "sig") updated_event accepted refl

abbrev no_plans : Billing tables
no_plans = record start { plans = [] }

webhook_failed : process_webhook host stripe tables "s1" "body" (some "sig") no_plans ≡ (
  err (unavailable "No billing plan is configured for Stripe subscription synchronization."),
  recorded host stripe tables updated_event error no_plans,
)
unfolding trim process_webhook handle_stripe_event get_stripe is_processed has
    sync_subscription_from_stripe resolve_plan_from_price_id extract_customer_id
webhook_failed = ground arith

process_webhook-failed_example :
    recorded host stripe tables updated_event error no_plans
    ≡ recorded host stripe tables updated_event error no_plans
process_webhook-failed_example =
    process_webhook-failed host stripe tables "s1" "body" (some "sig") updated_event no_plans
      accepted (recorded host stripe tables updated_event error no_plans)
      (unavailable "No billing plan is configured for Stripe subscription synchronization.")
      webhook_failed

pub cus_named : (c : String) → ◌≡◌ {A = Result String} (ok "cus_1") (ok c) → c ≢ ""
cus_named c h e = ground (arith, h, e, eq_iff "cus_1" "")

abbrev client : CheckoutClient
client = record {
  create_customer = λ email name id. ok "cus_1";
  create_checkout = λ request. ok (record { id = "cs_1"; url = some "https://pay" });
  create_portal = λ customer_id back. ok "https://portal";
  create_customer-nonempty = λ email name id c h e. cus_named c h e;
}

checkout_done :
    create_checkout_session host client tables "u1" pro none (record start { users = ann ∷ [] })
    ≡ (ok ("cs_1", "https://pay"), start)
unfolding create_checkout_session ensure_stripe_customer resolve_price_id trim
checkout_done = ground arith

create_checkout_session_sound_example :
    (plan : Plan) × (price : String) × (customer_id : String) × (tables.plans.find start.plans
        plan.id
      ≡ some plan)
    × (same_plan plan.code pro ≡ true)
    × (plan.is_active ≡ true)
    × (resolve_price_id plan none ≡ some price)
    × (client.create_checkout (request_for host client tables customer_id price "u1" pro)
        ≡ ok (record { id = "cs_1"; url = some "https://pay" }))
    × (create_portal_session host client tables "u1" start ≡ (
      client.create_portal customer_id
          (resolve_frontend_url host client tables & "/settings/billing"),
      start,
    ))
create_checkout_session_sound_example =
    create_checkout_session_sound host client tables "u1" pro none
      (record start { users = ann ∷ [] }) start "cs_1" "https://pay" checkout_done
