-- ===== src/Billing/Sync/Rows.antt =====
-- The rows that a synchronisation writes, and the plan that it picks.
use prismacv_backend.Shared.{
  ◌≡◌, refl, ap, ◌∙◌, String, Option, none, some, if◌then◌else◌, str_eq, ok, arith, inl, inr,
  Bool-cases, Option-cases, Result-cases, str_eq-true,
}
use prismacv_backend.Shared.Table.{change}
use prismacv_backend.Auth.Model.{PrismaUser, pro}
use prismacv_backend.Billing.Model.{Plan, Subscription, BillingPrisma, Billing, put}
use prismacv_backend.Billing.PlanAccess.{same_plan}
use prismacv_backend.Billing.Sync.{
  StripeSubscription, map_stripe_status_to_user_plan, synced, created, subscribed, price_plan,
  or_pro, upsert,
}

module _ (p : BillingPrisma) where
  find-upsert :
      (id user_id : String) (s : StripeSubscription) (plan : Plan)
      (rows rows' : p.subscriptions.Rows)
      → upsert p id user_id s plan rows (p.subscriptions.find rows user_id) ≡ ok rows'
      → (row : Subscription) × (row.plan_id ≡ plan.id)
        × (row.status ≡ s.status)
        × ((j : String)
            → p.subscriptions.find rows' j
              ≡ (if str_eq user_id j then some row else p.subscriptions.find rows j))
  find-upsert id user_id s plan rows rows' h =
      elim (Option-cases (p.subscriptions.find rows user_id)) [
        | inl e ↦ (
          created id user_id s plan,
          refl,
          refl,
          λ j.
              p.subscriptions.find-create rows rows' (created id user_id s plan) j
                (ground (arith, h, e)),
        )
        | inr (row, e) ↦ elim (Result-cases (p.subscriptions.update rows user_id (synced s plan))) [
          | inr (x, failed) ↦ ground (arith, h, e, failed)
          | inl ((row', rows''), e') ↦ (
            synced s plan row,
            refl,
            refl,
            λ j.
                let moved =
                  p.subscriptions.find-update rows rows'' user_id (synced s plan) row' j (λ r. refl)
                    e' in
                elim (Bool-cases (str_eq user_id j)) [
                  | inl same ↦ ground (
                    arith,
                    h,
                    e,
                    e',
                    moved,
                    same,
                    ap (p.subscriptions.find rows) (str_eq-true user_id j same),
                  )
                  | inr other ↦ ground (arith, h, e, e', moved, other)
                ],
          )
        ]
      ]

  -- A synchronisation of the user u to the plan, in the database and in the kept plans.
  pub record Synced (s : StripeSubscription) (u : PrismaUser) (plan : Plan) (customer_id : String)
      (b b' : Billing p) : Type 0 where
    pub row : Subscription
    pub row_plan : row.plan_id ≡ plan.id
    pub row_status : row.status ≡ s.status
    pub plan_found : p.plans.find b.plans plan.id ≡ some plan
    pub user_found : p.users.find b.users u.id ≡ some u
    pub users_after :
        (j : String)
        → p.users.find b'.users j ≡ (
            if str_eq u.id j
            then change
                (subscribed (map_stripe_status_to_user_plan s.status plan.code) customer_id)
                (p.users.find b.users j)
            else p.users.find b.users j)
    pub subscriptions_after :
        (j : String)
        → p.subscriptions.find b'.subscriptions j
          ≡ (if str_eq u.id j then some row else p.subscriptions.find b.subscriptions j)
    pub plans_after : b'.plans ≡ b.plans
    pub cache_after : b'.cache ≡ put u.id none b.cache
    pub seen_after : b'.seen ≡ b.seen
    pub metrics_after : b'.metrics ≡ b.metrics

  pub write_subscription-Synced :
      (id customer_id : String) (s : StripeSubscription) (u : PrismaUser) (plan : Plan)
      (b b' : Billing p) (users : p.users.Rows) (u' : PrismaUser) (rows : p.subscriptions.Rows)
      → p.plans.find b.plans plan.id ≡ some plan
      → p.users.find b.users u.id ≡ some u
      → p.users.update b.users u.id
          (subscribed (map_stripe_status_to_user_plan s.status plan.code) customer_id)
        ≡ ok (u', users)
      → upsert p id u.id s plan b.subscriptions (p.subscriptions.find b.subscriptions u.id)
        ≡ ok rows
      → b' ≡ record b { users = users; subscriptions = rows; cache = put u.id none b.cache }
      → Synced s u plan customer_id b b'
  write_subscription-Synced id customer_id s u plan b b' users u' rows f g e e' last =
      let (row, a, c, at) = find-upsert id u.id s plan b.subscriptions rows e' in
      record {
        row = row;
        row_plan = a;
        row_status = c;
        plan_found = f;
        user_found = g;
        users_after = λ j.
            ap (λ (d : Billing p). p.users.find d.users j) last
            ∙ p.users.find-update b.users users u.id _ u' j (λ r. refl) e;
        subscriptions_after =
            λ j. ap (λ (d : Billing p). p.subscriptions.find d.subscriptions j) last ∙ at j;
        plans_after = ap (λ (d : Billing p). d.plans) last;
        cache_after = ap (λ (d : Billing p). d.cache) last;
        seen_after = ap (λ (d : Billing p). d.seen) last;
        metrics_after = ap (λ (d : Billing p). d.metrics) last;
      }

  price_plan-found :
      (price : Option String) (b : Billing p) (plan : Plan)
      → price_plan p price b ≡ some plan
      → p.plans.find b.plans plan.id ≡ some plan
  price_plan-found none b plan h = cc
  price_plan-found (some price) b plan h = (p.plans.find_first_sound b.plans _ plan h).0

  -- The plan of the price, or PRO.
  abbrev pub chosen : Option Plan → Billing p → Option Plan
  chosen none b = p.plans.find_first b.plans (λ x. same_plan x.code pro)
  chosen (some plan) b = some plan

  pub or_pro_lem : (o : Option Plan) (b : Billing p) → or_pro p o b ≡ (ok (chosen o b), b)
  or_pro_lem none b = refl
  or_pro_lem (some plan) b = refl

  -- A plan that is used is in the database.
  pub chosen-found :
      (price : Option String) (b : Billing p) (plan : Plan)
      → chosen (price_plan p price b) b ≡ some plan
      → p.plans.find b.plans plan.id ≡ some plan
  chosen-found price b plan h = elim (Option-cases (price_plan p price b)) [
    | inl e ↦
        (p.plans.find_first_sound b.plans (λ x. same_plan x.code pro) plan (ground (arith, h, e))).0
    | inr (x, e) ↦ price_plan-found price b plan (ground (arith, h, e))
  ]
