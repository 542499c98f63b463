-- ===== src/Ats/Analyze/Laws.antt =====
-- The suggestions of a language model are an addition to the score of src/modules/ats/ats.service.ts.
use prismacv_backend.Shared.{
  ℕ, suc, ◌<◌, ◌≡◌, ◌⊎◌, inl, inr, refl, ap, String, some, List, Result, ok, err, Bool-cases,
}
use prismacv_backend.Host.{Host}
use prismacv_backend.AiUsage.{
  UsageTable, Calendar, ats_score, consume_quota, get_monthly_limit, get_monthly_period,
}
use prismacv_backend.AiUsage.Laws.{calls_used_now, IsUnique}
use prismacv_backend.AiUsage.Quota.{consume_quota_counts, refund-consume_quota}
use prismacv_backend.AiUsage.Refused.{consume_quota-rows}
use prismacv_backend.Ats.Number.{Double}
use prismacv_backend.Ats.Score.{AtsScoreRequest, AtsScore, score_of, merge_suggestions}
use prismacv_backend.Ats.Analyze.{
  Assistant, asked, should_use_llm, after_call, after_quota, analyze,
}

module _ (d : Double) (host : Host) (calendar : Calendar) (t : UsageTable) (llm : Assistant)
    (now : ℕ) (user_id : String) (dto : AtsScoreRequest) (s : AtsScore) (rows : t.Rows)
    (unique : IsUnique t user_id ats_score (get_monthly_period calendar now) rows)
    (some_calls : 0 < get_monthly_limit host ats_score) where
  abbrev count : t.Rows → ℕ
  count = calls_used_now t user_id ats_score (get_monthly_period calendar now)

  -- The score alone, with the calls of the month as before; or the score with the suggestions of the
  -- model merged in, and one call more.
  abbrev pub IsAnswer : Result AtsScore × t.Rows → Type 0
  IsAnswer x =
      ((x.0 ≡ ok s) × (count x.1 ≡ count rows))
      ⊎ ((more : List String) × (asked llm dto s ≡ ok more)
          × (x.0 ≡ ok (record s { suggestions = merge_suggestions s.suggestions more }))
          × (count x.1 ≡ suc (count rows)))

  module _ (later : ℕ) (same_year : calendar.utc_full_year later ≡ calendar.utc_full_year now)
      (same_month : calendar.utc_month later ≡ calendar.utc_month now) where
    consumed-IsAnswer :
        (id : String) (rows' : t.Rows) (r : Result (List String))
        → consume_quota t host calendar id now user_id ats_score rows ≡ (ok tt, rows')
        → asked llm dto s ≡ r
        → IsAnswer (after_call d host calendar t llm later user_id s rows' r)
    consumed-IsAnswer id rows' (ok more) h e = inr (
      more,
      e,
      refl,
      ((consume_quota_counts host calendar t now user_id ats_score rows unique some_calls id).0
          rows' h).1,
    )
    consumed-IsAnswer id rows' (err f) h e =
        let (back, g, c) =
          (refund-consume_quota host calendar t now user_id ats_score rows unique some_calls later
              same_year same_month).1
            id rows' h in
        rw g (inl (refl, c))

    answered :
        (id : String) (r : Result (Unit {0})) (rows' : t.Rows)
        → consume_quota t host calendar id now user_id ats_score rows ≡ (r, rows')
        → IsAnswer (after_quota d host calendar t llm later user_id dto s (r, rows'))
    answered id (ok tt) rows' h = consumed-IsAnswer id rows' (asked llm dto s) h refl
    answered id (err e) rows' h = inl (
      refl,
      ap count (consume_quota-rows t host calendar id now user_id ats_score rows rows' e h),
    )

    -- Under a positive limit, and with at most one row of the user, the feature and the month: where the
    -- score is computed, `analyze` returns it whatever the quota and the model do, either as it is, with
    -- the calls of the month as they were, or with the suggestions of the model merged in, for one call
    -- more. The quota is given back in the month in which it was taken.
    pub analyze_answers :
        (id : String)
        → score_of d dto ≡ some s
        → IsAnswer (analyze d host calendar t llm id now later dto user_id rows)
    unfolding analyze
    analyze_answers id h =
        rw (h, analyze)
          (elim (Bool-cases (should_use_llm host llm user_id)) [
            | inr e ↦ rw e (inl (refl, refl))
            | inl e ↦ rw e (
                answered id (consume_quota t host calendar id now user_id ats_score rows).0
                  (consume_quota t host calendar id now user_id ats_score rows).1 refl)
          ])
