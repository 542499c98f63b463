-- ===== src/Billing/Checkout/Laws.antt =====
-- A checkout leaves the user with the customer that it was made for.
use prismacv_backend.Shared.{
  ◌≡◌, refl, ap, ◌∙◌, String, true, Option, none, some, truthy, ok, M, pure, lift, or_throw, ◌>>=◌,
  unavailable, arith, inl, inr, Bool-cases, Option-cases, Result-cases, eq_refl, str_eq-false,
}
use prismacv_backend.Shared.Text.{◌&◌}
use prismacv_backend.Host.{Host}
use prismacv_backend.Auth.Model.{PrismaUser, UserPlan}
use prismacv_backend.Billing.Model.{Plan, BillingPrisma, Billing}
use prismacv_backend.Billing.PlanAccess.{same_plan}
use prismacv_backend.Billing.Checkout.{
  BillingCycle, CheckoutClient, resolve_price_id, resolve_frontend_url, with_customer,
  ensure_stripe_customer, request_for, create_checkout_session, create_portal_session, trimmed_key,
}

truthy-eq-some : (o : Option String) (s : String) → truthy o ≡ some s → o ≡ some s
truthy-eq-some none s h = cc
truthy-eq-some (some t) s h = ground (arith, h)

module _ (host : Host) (client : CheckoutClient) (p : BillingPrisma) (user_id : String) where
  -- The user of the id has the customer.
  pub record HasCustomer (customer_id : String) (b : Billing p) : Type 0 where
    pub user : PrismaUser
    pub found : p.users.find b.users user_id ≡ some user
    pub customer : truthy user.stripe_customer_id ≡ some customer_id

  module _ (user : PrismaUser) (b b' : Billing p) (customer_id : String)
      (found : p.users.find b.users user_id ≡ some user) where
    ensure_stripe_customer-HasCustomer :
        ensure_stripe_customer host client p user_id user b ≡ (ok customer_id, b')
        → HasCustomer customer_id b'
    unfolding ensure_stripe_customer
    ensure_stripe_customer-HasCustomer h = elim (Option-cases (truthy user.stripe_customer_id)) [
      | inr (c, e) ↦
          let same : c ≡ customer_id = ground (arith, h, e) in
          let state : b' ≡ b = ground (arith, h, e) in
          record {
            user = user;
            found = ap (λ (d : Billing p). p.users.find d.users user_id) state ∙ found;
            customer = e ∙ ap some same;
          }
      | inl e ↦
          elim (Option-cases (trimmed_key host client p (host.config_text "STRIPE_SECRET_KEY"))) [
            | inl e1 ↦ ground (arith, h, e, e1)
            | inr (key, e1) ↦
                elim (Result-cases (client.create_customer user.email user.name user_id)) [
                  | inr (x, e2) ↦ ground (arith, h, e, e1, e2)
                  | inl (c, e2) ↦
                      elim (Result-cases (p.users.update b.users user_id (with_customer c))) [
                        | inr (x, e3) ↦ ground (arith, h, e, e1, e2, e3)
                        | inl ((u', rows), e3) ↦
                            let same : c ≡ customer_id = ground (arith, h, e, e1, e2, e3) in
                            let state : b' ≡ record b { users = rows } =
                              ground (arith, h, e, e1, e2, e3) in
                            let at =
                              p.users.find-update b.users rows user_id (with_customer c) u' user_id
                                (λ x. refl) e3 in
                            let named =
                              str_eq-false c "" (
                                client.create_customer-nonempty user.email user.name user_id c
                                  e2) in
                            record {
                              user = with_customer c user;
                              found =
                                  ap (λ (d : Billing p). p.users.find d.users user_id) state
                                  ∙ at
                                  ∙ rw (eq_refl user_id, found);
                              customer = ground (arith, named, same);
                            }
                      ]
                ]
          ]
    ]

  portal-HasCustomer :
      (b : Billing p) (customer_id key : String)
      → HasCustomer customer_id b
      → trimmed_key host client p (host.config_text "STRIPE_SECRET_KEY") ≡ some key
      → create_portal_session host client p user_id b ≡ (
        client.create_portal customer_id (resolve_frontend_url host client p & "/settings/billing"),
        b,
      )
  unfolding create_portal_session
  portal-HasCustomer b customer_id key c k = rw (k, c.found, c.customer)

  -- The end of a checkout.
  abbrev charged : PrismaUser → UserPlan → String → M (Billing p) (String × String)
  charged user code price = do
    customer_id ← ensure_stripe_customer host client p user_id user
    session ←
        lift (client.create_checkout (request_for host client p customer_id price user_id code))
    url ←
        or_throw (truthy session.url)
          (unavailable "Stripe checkout session did not return a redirect URL")
    pure (session.id, url)

  charged-eq-ok :
      (user : PrismaUser) (code : UserPlan) (price : String) (b b' : Billing p)
      (session_id url : String)
      → p.users.find b.users user_id ≡ some user
      → charged user code price b ≡ (ok (session_id, url), b')
      → (customer_id : String) × (client.create_checkout
            (request_for host client p customer_id price user_id code)
          ≡ ok (record { id = session_id; url = some url }))
        × HasCustomer customer_id b'
  charged-eq-ok user code price b b' session_id url found h =
      let run = ensure_stripe_customer host client p user_id user b in
      elim (Result-cases run.0) [
        | inr (x, e1) ↦ ground (arith, h, e1)
        | inl (customer_id, e1) ↦
            elim (Result-cases
              (client.create_checkout (request_for host client p customer_id price user_id code))) [
                | inr (x, e2) ↦ ground (arith, h, e1, e2)
                | inl (session, e2) ↦ elim (Option-cases (truthy session.url)) [
                  | inl e3 ↦ ground (arith, h, e1, e2, e3)
                  | inr (address, e3) ↦
                      let same : run ≡ (ok customer_id, b') = ground (arith, h, e1, e2, e3) in
                      let at_url = truthy-eq-some session.url address e3 in
                      let here : address ≡ url = ground (arith, h, e1, e2, e3) in
                      let named : session.id ≡ session_id = ground (arith, h, e1, e2, e3) in
                      (
                        customer_id,
                        e2 ∙ ground (arith, at_url, here, named),
                        ensure_stripe_customer-HasCustomer user b b' customer_id found same,
                      )
                ]
              ]
      ]

  -- A checkout that returns was made for an active plan and a price of it, under a customer that the
  -- user has afterwards; the portal of the user is then opened for that customer.
  pub create_checkout_session_sound :
      (code : UserPlan) (cycle : Option BillingCycle) (b b' : Billing p) (session_id url : String)
      → create_checkout_session host client p user_id code cycle b ≡ (ok (session_id, url), b')
      → (plan : Plan) × (price : String) × (customer_id : String) × (p.plans.find b.plans plan.id
          ≡ some plan)
        × (same_plan plan.code code ≡ true)
        × (plan.is_active ≡ true)
        × (resolve_price_id plan cycle ≡ some price)
        × (client.create_checkout (request_for host client p customer_id price user_id code)
            ≡ ok (record { id = session_id; url = some url }))
        × (create_portal_session host client p user_id b' ≡ (
          client.create_portal customer_id
              (resolve_frontend_url host client p & "/settings/billing"),
          b',
        ))
  unfolding create_checkout_session
  create_checkout_session_sound code cycle b b' session_id url h =
      elim (Option-cases (trimmed_key host client p (host.config_text "STRIPE_SECRET_KEY"))) [
        | inl e1 ↦ ground (arith, h, e1)
        | inr (key, e1) ↦ elim (Option-cases (p.users.find b.users user_id)) [
          | inl e2 ↦ ground (arith, h, e1, e2)
          | inr (user, e2) ↦
              elim (Option-cases (p.plans.find_first b.plans (λ x. same_plan x.code code))) [
                | inl e3 ↦ ground (arith, h, e1, e2, e3)
                | inr (plan, e3) ↦ elim (Bool-cases plan.is_active) [
                  | inr e4 ↦ ground (arith, h, e1, e2, e3, e4)
                  | inl e4 ↦ elim (Option-cases (truthy (resolve_price_id plan cycle))) [
                    | inl e5 ↦ ground (arith, h, e1, e2, e3, e4, e5)
                    | inr (price, e5) ↦
                        let (found, fits) =
                          p.plans.find_first_sound b.plans (λ x. same_plan x.code code) plan e3 in
                        let rest : charged user code price b ≡ (ok (session_id, url), b') =
                          ground (arith, h, e1, e2, e3, e4, e5) in
                        let (customer_id, sent, has) =
                          charged-eq-ok user code price b b' session_id url e2 rest in
                        (
                          plan,
                          price,
                          customer_id,
                          found,
                          fits,
                          e4,
                          truthy-eq-some (resolve_price_id plan cycle) price e5,
                          sent,
                          portal-HasCustomer b' customer_id key has e1,
                        )
                  ]
                ]
              ]
        ]
      ]
