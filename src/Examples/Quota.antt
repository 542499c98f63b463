-- ===== src/Examples/Quota.antt =====
-- Runs of the theorems on the monthly quota.
use prismacv_backend.Shared.{
  ℕ, suc, ◌-◌, ◌≤◌, ◌<◌, ◌≡◌, refl, String, List, [], ◌∷◌, ok, err, arith, eq_iff,
}
use prismacv_backend.Shared.Table.InMemory.{in_memory}
use prismacv_backend.AiUsage.{
  AiUsage, UsageTable, Calendar, cv_analyze, usage_key, usage_unique, consume_quota, refund_quota,
  get_monthly_limit, get_monthly_period, quota_exceeded,
}
use prismacv_backend.AiUsage.Laws.{calls_used_now, IsUnique}
use prismacv_backend.AiUsage.Quota.{consume_quota_counts, refund-consume_quota}
use prismacv_backend.Examples.World.{example_host}

abbrev calendar : Calendar
calendar = record { utc_full_year = λ now. 1970; utc_month = λ now. 0; utc = λ year month. month }

abbrev table : UsageTable
table = in_memory usage_key usage_unique

abbrev usage : AiUsage
usage = record {
  id = "q1";
  user_id = "u1";
  feature = cv_analyze;
  period_start = 0;
  period_end = 1;
  calls_used = 7;
}

unique : IsUnique table "u1" cv_analyze (get_monthly_period calendar 5) (usage ∷ [])
unique j k u v g h i i' = ground (arith, g, h, eq_iff "q1" j, eq_iff "q1" k)

limited : 0 < get_monthly_limit example_host cv_analyze
unfolding get_monthly_limit
limited = omega arith

abbrev count : List AiUsage → ℕ
count rows = calls_used_now table "u1" cv_analyze (get_monthly_period calendar 5) rows

consume_quota_counts_example :
    ((rows' : List AiUsage)
      → consume_quota table example_host calendar "q2" 5 "u1" cv_analyze (usage ∷ [])
        ≡ (ok tt, rows')
      → (count (usage ∷ []) < get_monthly_limit example_host cv_analyze)
        × (count rows' ≡ suc (count (usage ∷ [])))
        × IsUnique table "u1" cv_analyze (get_monthly_period calendar 5) rows')
    × (get_monthly_limit example_host cv_analyze ≤ count (usage ∷ [])
        → consume_quota table example_host calendar "q2" 5 "u1" cv_analyze (usage ∷ [])
          ≡ (err (quota_exceeded cv_analyze), usage ∷ []))
consume_quota_counts_example =
    consume_quota_counts example_host calendar table 5 "u1" cv_analyze (usage ∷ []) unique limited
      "q2"

refund-consume_quota_example :
    ((rows' : List AiUsage) × (refund_quota table example_host calendar 9 "u1" cv_analyze
          (usage ∷ [])
        ≡ (ok tt, rows'))
      × (count rows' ≡ count (usage ∷ []) - 1))
    × ((id : String) (rows' : List AiUsage)
        → consume_quota table example_host calendar id 5 "u1" cv_analyze (usage ∷ [])
          ≡ (ok tt, rows')
        → (rows'' : List AiUsage) × (refund_quota table example_host calendar 9 "u1" cv_analyze
              rows'
            ≡ (ok tt, rows''))
          × (count rows'' ≡ count (usage ∷ [])))
refund-consume_quota_example =
    refund-consume_quota example_host calendar table 5 "u1" cv_analyze (usage ∷ []) unique limited 9
      refl refl
