-- ===== src/Examples/AtsCall.antt =====
-- A run of the ATS analysis with a language model that fails, after 7 calls of the month.
use prismacv_backend.Shared.{
  ◌<◌, ◌≡◌, refl, true, none, some, [], ◌∷◌, err, internal, arith, eq_iff,
}
use prismacv_backend.Shared.Text.{to_lower_case}
use prismacv_backend.Host.{Host}
use prismacv_backend.Shared.Table.InMemory.{in_memory}
use prismacv_backend.AiUsage.{
  AiUsage, UsageTable, Calendar, ats_score, usage_key, usage_unique, get_monthly_limit,
  get_monthly_period,
}
use prismacv_backend.AiUsage.Laws.{IsUnique}
use prismacv_backend.Ats.Keywords.{Importance}
use prismacv_backend.Ats.Score.{AtsScoreRequest, AtsScore, score_with, score_of}
use prismacv_backend.Ats.Analyze.{Assistant, analyze}
use prismacv_backend.Ats.Analyze.Laws.{IsAnswer, analyze_answers}
use prismacv_backend.Examples.World.{example_host}
use prismacv_backend.Examples.Ats.{fixed}

abbrev host : Host
host = record example_host { config_text = λ key. some "OpenAI " }

abbrev calendar : Calendar
calendar = record { utc_full_year = λ now. 1970; utc_month = λ now. 0; utc = λ year month. month }

abbrev table : UsageTable
table = in_memory usage_key usage_unique

abbrev usage : AiUsage
usage = record {
  id = "q1";
  user_id = "u1";
  feature = ats_score;
  period_start = 0;
  period_end = 1;
  calls_used = 7;
}

abbrev failing : Assistant
failing = record {
  is_available = true;
  is_enabled = λ flag user_id. true;
  generate_ats_suggestions = λ cv jd missing given. err (internal "timeout");
}

abbrev request : AtsScoreRequest
request = record { cv_text = "Rust"; job_description = "Rust required"; skills = none }

abbrev score : AtsScore
score =
    score_with fixed request
      (record { keyword = "rust"; found = true; importance = Importance.required } ∷ [])

score_of_test : score_of fixed request ≡ some score
unfolding score_of to_lower_case
score_of_test = refl

unique : IsUnique table "u1" ats_score (get_monthly_period calendar 5) (usage ∷ [])
unique j k u v g h i i' = ground (arith, g, h, eq_iff "q1" j, eq_iff "q1" k)

limited : 0 < get_monthly_limit host ats_score
unfolding get_monthly_limit
limited = omega arith

analyze_answers_example :
    IsAnswer fixed host calendar table failing 5 "u1" request score
      (usage ∷ [])
      unique
      limited
      (analyze fixed host calendar table failing "q2" 5 9 request "u1" (usage ∷ []))
analyze_answers_example =
    analyze_answers fixed host calendar table failing 5 "u1" request score (usage ∷ []) unique
      limited 9 refl refl "q2" score_of_test
