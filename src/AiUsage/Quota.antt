-- ===== src/AiUsage/Quota.antt =====
-- The quota is kept: calls are counted up to the limit, and a refund takes one back.
use prismacv_backend.Shared.{ℕ, suc, ◌-◌, ◌≤◌, ◌<◌, ◌≡◌, refl, String, false, leb, ok, err, arith}
use prismacv_backend.Host.{Host}
use prismacv_backend.AiUsage.{
  AiUsageFeature, UsageTable, Calendar, quota_exceeded, consume_quota, refund_quota,
  get_monthly_limit, get_monthly_period,
}
use prismacv_backend.AiUsage.Laws.{calls_used_now, IsUnique}
use prismacv_backend.AiUsage.Count.{consume-ok, consume-full, refund_total}

module _ (host : Host) (calendar : Calendar) (t : UsageTable) (now : ℕ) (user_id : String)
    (feature : AiUsageFeature) (rows : t.Rows)
    (unique : IsUnique t user_id feature (get_monthly_period calendar now) rows)
    (some_calls : 0 < get_monthly_limit host feature) where
  abbrev count : t.Rows → ℕ
  count = calls_used_now t user_id feature (get_monthly_period calendar now)

  limited : leb (get_monthly_limit host feature) 0 ≡ false
  limited = ground (arith, some_calls)

  -- Under a positive limit, a call that is let through was below the limit of the month and is counted
  -- by exactly one; at the limit every call is refused with 429 and changes nothing.
  pub consume_quota_counts :
      (id : String)
      → ((rows' : t.Rows)
          → consume_quota t host calendar id now user_id feature rows ≡ (ok tt, rows')
          → (count rows < get_monthly_limit host feature)
            × (count rows' ≡ suc (count rows))
            × IsUnique t user_id feature (get_monthly_period calendar now) rows')
        × (get_monthly_limit host feature ≤ count rows
            → consume_quota t host calendar id now user_id feature rows
              ≡ (err (quota_exceeded feature), rows))
  unfolding consume_quota
  consume_quota_counts id = rw limited (
    λ rows' h.
        consume-ok t user_id feature (get_monthly_period calendar now) rows rows'
          (get_monthly_limit host feature) id unique some_calls h,
    λ l.
        consume-full t user_id feature (get_monthly_period calendar now) rows rows
          (get_monthly_limit host feature) id unique some_calls l,
  )

  module _ (later : ℕ) (same_year : calendar.utc_full_year later ≡ calendar.utc_full_year now)
      (same_month : calendar.utc_month later ≡ calendar.utc_month now) where
    same_period : get_monthly_period calendar later ≡ get_monthly_period calendar now
    unfolding get_monthly_period
    same_period = rw (same_year, same_month) refl

    -- Under a positive limit, and with at most one row of the user, the feature and the month: a refund
    -- at any later time of the month always succeeds, and takes one off the count of the month, down to
    -- zero; after a call that was let through it leaves the count as it was before the call.
    pub refund-consume_quota :
        ((rows' : t.Rows) × (refund_quota t host calendar later user_id feature rows
            ≡ (ok tt, rows'))
          × (count rows' ≡ count rows - 1))
        × ((id : String) (rows' : t.Rows)
            → consume_quota t host calendar id now user_id feature rows ≡ (ok tt, rows')
            → (rows'' : t.Rows) × (refund_quota t host calendar later user_id feature rows'
                ≡ (ok tt, rows''))
              × (count rows'' ≡ count rows))
    unfolding refund_quota consume_quota
    refund-consume_quota =
        let (rows', e, c, still) =
          refund_total t user_id feature (get_monthly_period calendar now) rows unique
            (get_monthly_limit host feature) in
        rw (limited, same_period)
          (
            (rows', e, c),
            λ id rows1 h.
                let (below, counted, unique1) =
                  consume-ok t user_id feature (get_monthly_period calendar now) rows rows1
                    (get_monthly_limit host feature) id unique some_calls h in
                let (rows2, e2, c2, still2) =
                  refund_total t user_id feature (get_monthly_period calendar now) rows1 unique1
                    (get_monthly_limit host feature) in
                (rows2, e2, omega (arith, c2, counted)),
          )
