-- ===== src/AiUsage.antt =====
-- src/modules/ai/ai-usage.service.ts: the monthly quota of calls of each user and feature.
pub mod Laws
pub mod Count
pub mod Quota
pub mod Refused
use prismacv_backend.Shared.{
  ℕ, suc, ◌+◌, ◌-◌, ◌==◌, String, Bool, true, false, ◌&&◌, Option, none, some, List, [], ◌∷◌,
  if◌then◌else◌, leb, str_eq, or_default, Error, Result, ok, err, M, too_many_requests,
}
use prismacv_backend.Shared.Text.{◌&◌, to_string}
use prismacv_backend.Shared.Table.{Table}
use prismacv_backend.Host.{Host}

pub data AiUsageFeature : Type 0 where
  cv_analyze cv_optimize grammar_check ats_score cover_letter_generate : AiUsageFeature

-- The feature as `feature.toLowerCase()` prints it.
abbrev pub feature_text : AiUsageFeature → String
feature_text cv_analyze = "cv_analyze"
feature_text cv_optimize = "cv_optimize"
feature_text grammar_check = "grammar_check"
feature_text ats_score = "ats_score"
feature_text cover_letter_generate = "cover_letter_generate"

abbrev pub env_key : AiUsageFeature → String
env_key cv_analyze = "AI_MONTHLY_CV_ANALYZE_LIMIT"
env_key cv_optimize = "AI_MONTHLY_CV_OPTIMIZE_LIMIT"
env_key grammar_check = "AI_MONTHLY_GRAMMAR_CHECK_LIMIT"
env_key ats_score = "AI_MONTHLY_ATS_SCORE_LIMIT"
env_key cover_letter_generate = "AI_MONTHLY_COVER_LETTER_GENERATE_LIMIT"

abbrev pub same_feature : AiUsageFeature → AiUsageFeature → Bool
same_feature a b = str_eq (feature_text a) (feature_text b)

-- A row of `ai_usage`.
pub record AiUsage : Type 0 where
  pub id : String
  pub user_id : String
  pub feature : AiUsageFeature
  pub period_start : ℕ
  pub period_end : ℕ
  pub calls_used : ℕ

abbrev pub usage_key : AiUsage → String
usage_key u = u.id

-- The unique columns are one compound key.
abbrev pub usage_unique : AiUsage → List (Option String)
usage_unique u =
    some (
      u.user_id
      & (" "
          & (feature_text u.feature
              & (" " & (to_string u.period_start & (" " & to_string u.period_end))))))
    ∷ []

abbrev pub UsageTable : Type 1
UsageTable = Table AiUsage usage_key usage_unique

-- The UTC calendar of `Date`: the year and month of a time, and the first instant of a month.
pub record Calendar : Type 0 where
  pub utc_full_year : ℕ → ℕ
  pub utc_month : ℕ → ℕ
  pub utc : ℕ → ℕ → ℕ

unfoldable pub get_monthly_period : Calendar → ℕ → ℕ × ℕ
get_monthly_period calendar now = (
  calendar.utc (calendar.utc_full_year now) (calendar.utc_month now),
  calendar.utc (calendar.utc_full_year now) (calendar.utc_month now + 1),
)

unfoldable pub get_monthly_limit : Host → AiUsageFeature → ℕ
get_monthly_limit host feature =
    or_default (host.config_number (env_key feature))
      (or_default (host.config_number "AI_MONTHLY_CALL_LIMIT") 200)

-- The row of a user, a feature and a period.
abbrev pub is_usage_of : String → AiUsageFeature → ℕ × ℕ → AiUsage → Bool
is_usage_of user_id feature period u =
    str_eq u.user_id user_id
    && same_feature u.feature feature
    && u.period_start == period.0
    && u.period_end == period.1

abbrev pub first_use : String → String → AiUsageFeature → ℕ × ℕ → AiUsage
first_use id user_id feature period = record {
  id = id;
  user_id = user_id;
  feature = feature;
  period_start = period.0;
  period_end = period.1;
  calls_used = 1;
}

abbrev pub one_more : AiUsage → AiUsage
one_more u = record u { calls_used = u.calls_used + 1 }

abbrev pub one_less : AiUsage → AiUsage
one_less u = record u { calls_used = u.calls_used - 1 }

abbrev pub quota_exceeded : AiUsageFeature → Error
quota_exceeded feature =
    too_many_requests ("Monthly AI quota exceeded for " & (feature_text feature & "."))

module _ (t : UsageTable) where
  abbrev pub updated : t.Rows → Result (AiUsage × t.Rows) → Result (Unit {0}) × t.Rows
  updated rows (ok (u, rows')) = (ok tt, rows')
  updated rows (err e) = (err e, rows)

  abbrev pub inserted : t.Rows → Result t.Rows → Result (Unit {0}) × t.Rows
  inserted rows (ok rows') = (ok tt, rows')
  inserted rows (err e) = (err e, rows)

  module _ (limit : ℕ) (user_id : String) (feature : AiUsageFeature) (period : ℕ × ℕ) where
    -- The two transactions, on the row that `findUnique` finds.
    abbrev pub consume : String → Option AiUsage → M t.Rows (Unit {0})
    consume id none rows = inserted rows (t.create rows (first_use id user_id feature period))
    consume id (some u) rows =
        if leb limit u.calls_used
        then (err (quota_exceeded feature), rows)
        else updated rows (t.update rows u.id one_more)

    abbrev pub refund : Option AiUsage → M t.Rows (Unit {0})
    refund none rows = (ok tt, rows)
    refund (some u) rows =
        if leb u.calls_used 0
        then (ok tt, rows)
        else if u.calls_used == 1
        then (ok tt, t.delete_many rows (λ x. str_eq x.id u.id))
        else updated rows (t.update rows u.id one_less)

  module _ (host : Host) (calendar : Calendar) where
    -- `id` is drawn by generateUuidv7. A limit of 0 is no limit.
    pub consume_quota : String → ℕ → String → AiUsageFeature → M t.Rows (Unit {0})
    consume_quota id now user_id feature rows =
        if leb (get_monthly_limit host feature) 0
        then (ok tt, rows)
        else consume (get_monthly_limit host feature) user_id feature
            (get_monthly_period calendar now) id
            (t.find_first rows (is_usage_of user_id feature (get_monthly_period calendar now))) rows

    pub refund_quota : ℕ → String → AiUsageFeature → M t.Rows (Unit {0})
    refund_quota now user_id feature rows =
        if leb (get_monthly_limit host feature) 0
        then (ok tt, rows)
        else refund (get_monthly_limit host feature) user_id feature
            (get_monthly_period calendar now)
            (t.find_first rows (is_usage_of user_id feature (get_monthly_period calendar now))) rows
