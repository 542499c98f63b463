-- ===== src/Billing/Checkout.antt =====
-- src/modules/billing/billing.service.ts: `createCheckoutSession` and `createPortalSession`.
pub mod Laws
use Prim.Native.Char.{code}
use prismacv_backend.Shared.{
  ℕ, ◌==◌, ◌≡◌, ◌≢◌, String, Bool, true, false, Option, none, some, if◌then◌else◌, str_eq, truthy,
  or_default, Result, ok, err, M, pure, throw, lift, or_throw, ◌>>=◌, ◌>>◌, not_found, bad_request,
  unavailable,
}
use prismacv_backend.Shared.Text.{trim, ◌&◌}
use prismacv_backend.Host.{Host}
use prismacv_backend.Auth.Model.{PrismaUser, UserPlan}
use prismacv_backend.Billing.Model.{Plan, BillingPrisma, Billing}
use prismacv_backend.Billing.PlanAccess.{plan_text, same_plan}
use prismacv_backend.Billing.Sync.{get_plan_by_code}

pub data BillingCycle : Type 0 where
  monthly yearly : BillingCycle

-- What is sent for a checkout; the mode, the quantity and the promotion codes are fixed.
pub record CheckoutRequest : Type 0 where
  pub customer : String
  pub price : String
  pub success_url : String
  pub cancel_url : String
  pub user_id : String
  pub plan_code : UserPlan

pub record CheckoutSession : Type 0 where
  pub id : String
  pub url : Option String

-- The calls of the client of Stripe: a customer by e-mail, name and user, a checkout, and the address
-- of a portal session for a customer and a return address.
pub record CheckoutClient : Type 0 where
  pub create_customer : String → Option String → String → Result String
  pub create_checkout : CheckoutRequest → Result CheckoutSession
  pub create_portal : String → String → Result String
  -- The id of a customer is not empty.
  pub create_customer-nonempty :
      (email : String) (name : Option String) (user_id customer_id : String)
      → create_customer email name user_id ≡ ok customer_id
      → customer_id ≢ ""

abbrev pub price_of : Plan → BillingCycle → Option String
price_of plan yearly = plan.stripe_price_yearly
price_of plan monthly = plan.stripe_price_monthly

-- Without a cycle, by the month.
unfoldable pub resolve_price_id : Plan → Option BillingCycle → Option String
resolve_price_id plan cycle = price_of plan (or_default cycle monthly)

abbrev pub cycle_text : Option BillingCycle → String
cycle_text none = "monthly"
cycle_text (some monthly) = "monthly"
cycle_text (some yearly) = "yearly"

-- `url.split(',')[0]`
unfoldable before_comma : String → String
before_comma String.[] = ""
before_comma (String.◌∷◌ c s) = if code c == b',' then "" else String.◌∷◌ c (before_comma s)

abbrev pub active_plan : Option Plan → Option Plan
active_plan none = none
active_plan (some plan) = if plan.is_active then some plan else none

abbrev pub with_customer : String → PrismaUser → PrismaUser
with_customer customer_id u = record u { stripe_customer_id = some customer_id }

module _ (host : Host) (client : CheckoutClient) (p : BillingPrisma) where
  unfoldable pub resolve_frontend_url : String
  unfolding before_comma
  resolve_frontend_url =
      let url =
        or_default (host.config_text "FRONTEND_URL")
          (or_default (host.config_text "CORS_ORIGIN") "http://localhost:3001") in
      or_default (truthy (some (trim (before_comma url)))) "http://localhost:3001"

  abbrev pub trimmed_key : Option String → Option String
  trimmed_key none = none
  trimmed_key (some key) = truthy (some (trim key))

  abbrev pub require_stripe : M (Billing p) String
  require_stripe =
      or_throw (trimmed_key (host.config_text "STRIPE_SECRET_KEY"))
        (unavailable "Stripe is not configured. Set STRIPE_SECRET_KEY first.")

  abbrev pub find_user : String → M (Billing p) (Option PrismaUser)
  find_user id b = (ok (p.users.find b.users id), b)

  abbrev pub stored : Billing p → Result (PrismaUser × p.users.Rows) → Result (Unit {0}) × Billing p
  stored b (ok (u, rows)) = (ok tt, record b { users = rows })
  stored b (err e) = (err e, b)

  abbrev pub store_customer : String → String → M (Billing p) (Unit {0})
  store_customer user_id customer_id b =
      stored b (p.users.update b.users user_id (with_customer customer_id))

  abbrev pub customer_or_new : String → PrismaUser → Option String → M (Billing p) String
  customer_or_new user_id user (some existing) = pure existing
  customer_or_new user_id user none = do
    key ← require_stripe
    customer_id ← lift (client.create_customer user.email user.name user_id)
    store_customer user_id customer_id
    pure customer_id

  unfoldable pub ensure_stripe_customer : String → PrismaUser → M (Billing p) String
  ensure_stripe_customer user_id user =
      customer_or_new user_id user (truthy user.stripe_customer_id)

  abbrev pub request_for : String → String → String → UserPlan → CheckoutRequest
  request_for customer_id price user_id plan_code = record {
    customer = customer_id;
    price = price;
    success_url = resolve_frontend_url & "/settings/billing?checkout=success";
    cancel_url = resolve_frontend_url & "/settings/billing?checkout=cancelled";
    user_id = user_id;
    plan_code = plan_code;
  }

  -- Returns the id of the session and its address.
  unfoldable pub create_checkout_session :
      String → UserPlan → Option BillingCycle → M (Billing p) (String × String)
  unfolding ensure_stripe_customer resolve_price_id
  create_checkout_session user_id code cycle = do
    key ← require_stripe
    found ← find_user user_id
    user ← or_throw found (not_found "User not found")
    plan_found ← get_plan_by_code p code
    plan ← or_throw (active_plan plan_found) (not_found "Selected billing plan is unavailable")
    price ← or_throw (truthy (resolve_price_id plan cycle)) (
        bad_request
          ("Stripe price is not configured for " & plan_text code & " (" & cycle_text cycle & ")."))
    customer_id ← ensure_stripe_customer user_id user
    session ← lift (client.create_checkout (request_for customer_id price user_id code))
    url ←
        or_throw (truthy session.url)
          (unavailable "Stripe checkout session did not return a redirect URL")
    pure (session.id, url)

  pub create_portal_session : String → M (Billing p) String
  create_portal_session user_id = do
    key ← require_stripe
    found ← find_user user_id
    user ← or_throw found (not_found "User not found")
    customer_id ←
        or_throw (truthy user.stripe_customer_id)
          (bad_request "No Stripe customer is associated with this account yet.")
    lift (client.create_portal customer_id (resolve_frontend_url & "/settings/billing"))
