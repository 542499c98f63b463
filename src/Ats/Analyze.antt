-- ===== src/Ats/Analyze.antt =====
-- src/modules/ats/ats.service.ts: `analyze`, with the suggestions of a language model. The provider of
-- the model and the feature flags are a record of what is used of them; metrics are left out.
pub mod Laws
use prismacv_backend.Shared.{
  ℕ, String, Bool, true, false, ◌&&◌, Option, none, some, List, if◌then◌else◌, str_eq, or_default,
  Error, Result, ok, err, M, internal,
}
use prismacv_backend.Shared.Text.{trim, to_lower_case}
use prismacv_backend.Host.{Host}
use prismacv_backend.AiUsage.{UsageTable, Calendar, ats_score, consume_quota, refund_quota}
use prismacv_backend.Ats.Number.{Double}
use prismacv_backend.Ats.Score.{AtsScoreRequest, AtsScore, score_of, merge_suggestions}

pub record Assistant : Type 0 where
  pub is_available : Bool
  pub is_enabled : String → String → Bool
  -- The texts of the CV and the job, the missing keywords, and the suggestions so far.
  pub generate_ats_suggestions : String → String → List String → List String → Result (List String)

abbrev pub should_use_llm : Host → Assistant → String → Bool
should_use_llm host llm user_id =
    str_eq (to_lower_case (trim (or_default (host.config_text "AI_PROVIDER") "builtin"))) "openai"
    && llm.is_available
    && llm.is_enabled "ai.llm.ats" user_id

abbrev pub asked : Assistant → AtsScoreRequest → AtsScore → Result (List String)
asked llm dto s =
    llm.generate_ats_suggestions dto.cv_text dto.job_description s.missing_keywords s.suggestions

module _ (d : Double) (host : Host) (calendar : Calendar) (t : UsageTable) (llm : Assistant) where
  -- A refund that fails is logged alone.
  abbrev pub refund_quota_on_provider_failure : ℕ → String → t.Rows → t.Rows
  refund_quota_on_provider_failure now user_id rows =
      (refund_quota t host calendar now user_id ats_score rows).1

  -- After the quota was consumed.
  abbrev pub after_call :
      ℕ → String → AtsScore → t.Rows → Result (List String) → Result AtsScore × t.Rows
  after_call later user_id s rows (ok more) =
      (ok (record s { suggestions = merge_suggestions s.suggestions more }), rows)
  after_call later user_id s rows (err e) =
      (ok s, refund_quota_on_provider_failure later user_id rows)

  abbrev pub after_quota :
      ℕ
      → String
      → AtsScoreRequest
      → AtsScore
      → Result (Unit {0}) × t.Rows
      → Result AtsScore × t.Rows
  after_quota later user_id dto s (ok u, rows) = after_call later user_id s rows (asked llm dto s)
  after_quota later user_id dto s (err e, rows) = (ok s, rows)

  -- `now` is when the quota is consumed, `later` when it is refunded, and `id` a new row's.
  unfoldable pub analyze : String → ℕ → ℕ → AtsScoreRequest → String → M t.Rows AtsScore
  unfolding score_of
  analyze id now later dto user_id rows = elim (score_of d dto) [
    | none ↦ (err (internal "variants.some is not a function"), rows)
    | some s ↦
        if should_use_llm host llm user_id
        then after_quota later user_id dto s
            (consume_quota t host calendar id now user_id ats_score rows)
        else (ok s, rows)
  ]
