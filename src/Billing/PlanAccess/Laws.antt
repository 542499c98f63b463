-- ===== src/Billing/PlanAccess/Laws.antt =====
-- The plans that are kept agree with the database, and the guard decides by the plan of the database.
use prismacv_backend.Shared.{
  ℕ, ◌+◌, ◌≡◌, ◌≢◌, refl, ap, String, true, false, List, [], ◌∷◌, IsIn, Option, none, some, map,
  str_eq, or_default, Result, ok, err, plan_required, arith, inl, inr, Bool-cases, Option-cases,
  Result-cases, eq_iff, str_eq-false,
}
use prismacv_backend.Host.{Host}
use prismacv_backend.Auth.Model.{PrismaUser, UserPlan, free, pro, team}
use prismacv_backend.Billing.Model.{Plan, Subscription, BillingPrisma, Billing, CachedPlan, put}
use prismacv_backend.Billing.PlanAccess.{
  RequiresPlanOptions, same_plan, has_access, plan_text, resolved_plan, include_plan, ttl,
  get_user_plan, load_plan, find_subscription, can_activate, kept_plan,
}

same_plan_refl : (x : UserPlan) → same_plan x x ≡ true
same_plan_refl free = refl
same_plan_refl pro = refl
same_plan_refl team = refl

same_plan-true : (x y : UserPlan) → same_plan x y ≡ true → y ≡ x
same_plan-true free free h = refl
same_plan-true pro pro h = refl
same_plan-true team team h = refl
same_plan-true free pro h = absurd (ground (arith, h))
same_plan-true free team h = absurd (ground (arith, h))
same_plan-true pro free h = absurd (ground (arith, h))
same_plan-true pro team h = absurd (ground (arith, h))
same_plan-true team free h = absurd (ground (arith, h))
same_plan-true team pro h = absurd (ground (arith, h))

has_access-member :
    (plan : UserPlan) (xs : List UserPlan) → IsIn plan xs → has_access plan xs ≡ true
unfolding has_access
has_access-member plan [] i = elim i [ ]
has_access-member plan (x ∷ xs) (inl e) = rw e (rw (same_plan_refl x) refl)
has_access-member plan (x ∷ xs) (inr i) = elim (Bool-cases (same_plan x plan)) [
  | inl e ↦ rw e refl
  | inr e ↦ rw e (has_access-member plan xs i)
]

has_access-other :
    (plan : UserPlan) (xs : List UserPlan) → ¬ IsIn plan xs → has_access plan xs ≡ false
unfolding has_access
has_access-other plan [] h = refl
has_access-other plan (x ∷ xs) h = elim (Bool-cases (same_plan x plan)) [
  | inl e ↦ absurd (h (inl (same_plan-true x plan e)))
  | inr e ↦ rw e (has_access-other plan xs (λ i. h (inr i)))
]

module _ (p : BillingPrisma) where
  -- The plan of a user by the database alone.
  abbrev pub plan_of : PrismaUser → Result (Option (Subscription × Plan)) → Option UserPlan
  plan_of u (ok s) = some (resolved_plan u s)
  plan_of u (err e) = none

  abbrev pub plan_for : p.plans.Rows → Option PrismaUser → Option Subscription → Option UserPlan
  plan_for plans none s = none
  plan_for plans (some u) s = plan_of u (include_plan p plans s)

  unfoldable pub plan_now : Billing p → String → Option UserPlan
  plan_now b id =
      plan_for b.plans (p.users.find b.users id) (p.subscriptions.find b.subscriptions id)

  plan_now-cache :
      (b : Billing p) (m : String → Option CachedPlan) (id : String)
      → plan_now (record b { cache = m }) id ≡ plan_now b id
  unfolding plan_now
  plan_now-cache b m id = refl

  -- A plan that is kept is the plan of the database.
  abbrev pub IsCoherent : Billing p → Type 0
  IsCoherent b = (id : String) (c : CachedPlan) → b.cache id ≡ some c → plan_now b id ≡ some c.plan

  kept_plan-IsCoherent :
      (b : Billing p) (now : ℕ) (id : String) (plan : UserPlan)
      → IsCoherent b
      → kept_plan now (b.cache id) ≡ some plan
      → plan_now b id ≡ some plan
  kept_plan-IsCoherent b now id plan h k = elim (Option-cases (b.cache id)) [
    | inl e ↦ ground (arith, k, e)
    | inr (c, e) ↦ ground (arith, k, e, h id c e)
  ]

  put-IsCoherent :
      (b : Billing p) (id : String) (c : CachedPlan)
      → IsCoherent b
      → plan_now b id ≡ some c.plan
      → IsCoherent (record b { cache = put id (some c) b.cache })
  put-IsCoherent b id c h e j c' k = elim (Bool-cases (str_eq id j)) [
    | inl same ↦
        ground (arith, k, same, e, eq_iff id j, plan_now-cache b (put id (some c) b.cache) j)
    | inr other ↦ ground (arith, k, other, h j c', plan_now-cache b (put id (some c) b.cache) j)
  ]

  module _ (host : Host) where
    pub load_plan_lem :
        (b : Billing p) (kept_now : ℕ) (id : String) (plan : UserPlan)
        → plan_now b id ≡ some plan
        → load_plan host p kept_now id b ≡ (
          ok plan,
          record b {
            cache =
                put id (some (record { plan = plan; expires_at = kept_now + ttl host })) b.cache;
          },
        )
    unfolding load_plan plan_now find_subscription
    load_plan_lem b kept_now id plan h = elim (Option-cases (p.users.find b.users id)) [
      | inl e ↦ ground (arith, h, e)
      | inr (u, e) ↦
          elim (Result-cases (include_plan p b.plans (p.subscriptions.find b.subscriptions id))) [
            | inl (s, e') ↦ ground (arith, h, e, e')
            | inr (x, e') ↦ ground (arith, h, e, e')
          ]
    ]

    module _ (b : Billing p) (coherent : IsCoherent b) (now kept_now : ℕ) (id : String)
        (plan : UserPlan) (current : plan_now b id ≡ some plan) where
      -- Where the plans that are kept agree with the database, the answer is the plan of the database,
      -- kept or read anew; what is kept afterwards agrees with the database too, and the database is
      -- as before.
      pub get_user_plan-IsCoherent :
          (m : String → Option CachedPlan) × (get_user_plan host p now kept_now id b
            ≡ (ok plan, record b { cache = m }))
          × IsCoherent (record b { cache = m })
      unfolding get_user_plan
      get_user_plan-IsCoherent = elim (Option-cases (kept_plan now (b.cache id))) [
        | inl e ↦ (
          put id (some (record { plan = plan; expires_at = kept_now + ttl host })) b.cache,
          rw e (load_plan_lem b kept_now id plan current),
          put-IsCoherent b id (record { plan = plan; expires_at = kept_now + ttl host }) coherent
              current,
        )
        | inr (kept, e) ↦ (
          b.cache,
          rw e (
              ap (λ (x : UserPlan). (ok x, b))
                (ground (arith, kept_plan-IsCoherent b now id kept coherent e, current))),
          coherent,
        )
      ]

      -- Where the plans that are kept agree with the database, the guard of a route that needs a plan
      -- lets a user with an id pass if the plan of the database, which the user has, is a member of the
      -- plans of the route, and refuses with 402 if it is none of them.
      pub can_activate_lem :
          (options : RequiresPlanOptions)
          → id ≢ ""
          → (IsIn plan options.plans
              → (can_activate host p now kept_now (some options) (some id) b).0 ≡ ok true)
            × (¬ IsIn plan options.plans
                → (can_activate host p now kept_now (some options) (some id) b).0
                  ≡ err (
                      plan_required
                        (or_default options.message
                          "This feature requires a higher subscription plan.")
                        options.feature
                        (plan_text plan)
                        (map plan_text options.plans)))
      unfolding can_activate
      can_activate_lem options named =
          let (m, e, kept) = get_user_plan-IsCoherent in
          (
            λ member. rw (str_eq-false id "" named, e, has_access-member plan options.plans member),
            λ other. rw (str_eq-false id "" named, e, has_access-other plan options.plans other),
          )
