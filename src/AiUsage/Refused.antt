-- ===== src/AiUsage/Refused.antt =====
-- src/modules/ai/ai-usage.service.ts: a call that is refused.
use prismacv_backend.Shared.{
  ℕ, ◌≡◌, sym, ap, String, Option, none, some, Error, Result, ok, err, leb, arith, inl, inr,
  Bool-cases,
}
use prismacv_backend.Host.{Host}
use prismacv_backend.AiUsage.{
  AiUsageFeature, AiUsage, UsageTable, Calendar, consume, updated, inserted, first_use, one_more,
  get_monthly_limit, get_monthly_period, is_usage_of, consume_quota,
}

module _ (t : UsageTable) where
  updated-rows :
      (rows rows' : t.Rows) (e : Error) (r : Result (AiUsage × t.Rows))
      → updated t rows r ≡ (err e, rows')
      → rows' ≡ rows
  updated-rows rows rows' e (ok (u, r)) h = absurd (ground (arith, h))
  updated-rows rows rows' e (err f) h = sym (ap (λ p. p.1) h)

  inserted-rows :
      (rows rows' : t.Rows) (e : Error) (r : Result t.Rows)
      → inserted t rows r ≡ (err e, rows')
      → rows' ≡ rows
  inserted-rows rows rows' e (ok r) h = absurd (ground (arith, h))
  inserted-rows rows rows' e (err f) h = sym (ap (λ p. p.1) h)

  consume-rows :
      (limit : ℕ) (user_id : String) (feature : AiUsageFeature) (period : ℕ × ℕ) (id : String)
      (found : Option AiUsage) (rows rows' : t.Rows) (e : Error)
      → consume t limit user_id feature period id found rows ≡ (err e, rows')
      → rows' ≡ rows
  consume-rows limit user_id feature period id none rows rows' e h =
      inserted-rows rows rows' e (t.create rows (first_use id user_id feature period)) h
  consume-rows limit user_id feature period id (some u) rows rows' e h =
      elim (Bool-cases (leb limit u.calls_used)) [
        | inl f ↦ sym (ap (λ p. p.1) (rw f at h))
        | inr f ↦ updated-rows rows rows' e (t.update rows u.id one_more) (rw f at h)
      ]

  -- A call that is refused, or fails, counts nothing.
  pub consume_quota-rows :
      (host : Host) (calendar : Calendar) (id : String) (now : ℕ) (user_id : String)
      (feature : AiUsageFeature) (rows rows' : t.Rows) (e : Error)
      → consume_quota t host calendar id now user_id feature rows ≡ (err e, rows')
      → rows' ≡ rows
  unfolding consume_quota
  consume_quota-rows host calendar id now user_id feature rows rows' e h =
      elim (Bool-cases (leb (get_monthly_limit host feature) 0)) [
        | inl f ↦ sym (ap (λ p. p.1) (rw f at h))
        | inr f ↦
            consume-rows (get_monthly_limit host feature) user_id feature
              (get_monthly_period calendar now) id
              (t.find_first rows (is_usage_of user_id feature (get_monthly_period calendar now)))
              rows rows' e (rw f at h)
      ]
