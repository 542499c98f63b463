-- ===== src/Examples/Ats.antt =====
-- Runs of the ATS score, on numbers with two decimals.
use native.Mathlib.Nat.{le-div_iff_mul-le, div-mul-le_self, mul-div_cancel, mul-le-mul_right}
use prismacv_backend.Shared.{
  ℕ, ◌+◌, ◌*◌, ◌/◌, ◌≤◌, ◌<◌, ◌≡◌, refl, ap, ◌∙◌, subst, String, true, false, List, [], ◌∷◌, ltb,
  length, none, arith,
}
use prismacv_backend.Shared.Text.{to_lower_case, trim}
use prismacv_backend.Ats.Number.{Double}
use prismacv_backend.Ats.Keywords.{Importance, KeywordMatch}
use prismacv_backend.Ats.Sections.{score_formatting, score_impact_language}
use prismacv_backend.Ats.Score.{
  AtsScoreRequest, score_with, section_avg, weighted, merge_suggestions,
}
use prismacv_backend.Ats.Score.Laws.{IsScored, score_with_bounds}
use prismacv_backend.Ats.Score.Merge.{IsDistinct, IsTaken, trim_all, merge_suggestions_sound}

div_mono : (a b n : ℕ) → 0 < n → a ≤ b → a / n ≤ b / n
div_mono a b n pos h = (le-div_iff_mul-le pos).1 (omega (arith, div-mul-le_self a n, h))

pub one_bound : (a n : ℕ) → a ≤ 100 → a * (n * 100) / 100 ≤ n * 100
one_bound a n h =
    subst (λ (q : ℕ). a * (n * 100) / 100 ≤ q) (mul-div_cancel (n * 100) (omega arith))
      (div_mono (a * (n * 100)) (n * 100 * 100) 100 (omega arith)
        (omega (arith, mul-le-mul_right (n * 100) h)))

pub over_mono : (a b n : ℕ) → 0 < n → a ≤ b → a * 100 / (n * 100) ≤ b * 100 / (n * 100)
over_mono a b n pos h =
    div_mono (a * 100) (b * 100) (n * 100) (omega (arith, pos)) (omega (arith, h))

pub over_exact : (m n : ℕ) → 0 < n → m * n * 100 * 100 / (n * 100) ≡ m * 100
over_exact m n pos =
    ap (λ (q : ℕ). q / (n * 100)) (grind arith) ∙ mul-div_cancel (m * 100) (omega (arith, pos))

pub over_self : (n : ℕ) → 0 < n → n * 100 * 100 / (n * 100) ≡ 100
over_self n pos =
    ap (λ (q : ℕ). q / (n * 100)) (omega arith) ∙ mul-div_cancel 100 (omega (arith, pos))

abbrev pub fixed : Double
fixed = record {
  Num = ℕ;
  of = λ n. n * 100;
  add = λ a b. a + b;
  times = λ a b. a * b / 100;
  over = λ a b. a * 100 / b;
  d04 = 40;
  d03 = 30;
  d015 = 15;
  d002 = 2;
  less = λ a b. ltb a b;
  round = λ a. (a + 50) / 100;
  IsBelow = λ a b. a ≤ b;
  of-IsBelow = λ m n h. omega (arith, h);
  IsBelow-trans = λ a b c h k. omega (arith, h, k);
  add-IsBelow = λ a b c d h k. omega (arith, h, k);
  times-IsBelow-one = λ a n small h. one_bound a n h;
  times-d04-IsBelow = λ a b h. omega (arith, h);
  times-d03-IsBelow = λ a b h. omega (arith, h);
  times-d015-IsBelow = λ a b h. omega (arith, h);
  over-IsBelow = λ a b n pos h. over_mono a b n pos h;
  round-IsBelow = λ a n small h. omega (arith, h);
  over-of = λ m n pos small. over_exact m n pos;
  over-self = λ n pos. over_self n pos;
  add-of = λ m n small. omega arith;
  times-d04 = refl;
  times-d03 = refl;
  times-d015 = refl;
}

abbrev request : AtsScoreRequest
request = record {
  cv_text = "Led a team, ann@mail.io. Skills: React. Up 20%";
  job_description = "React required, Docker preferred";
  skills = none;
}

abbrev matched : List KeywordMatch
matched =
    record { keyword = "react"; found = true; importance = Importance.required }
    ∷ record { keyword = "docker"; found = false; importance = Importance.preferred }
    ∷ []

score_with_bounds_example :
    IsScored (score_with fixed request matched).section_scores
    × ((score_with fixed request matched).keyword_match_rate ≤ 100)
    × ((score_with fixed request matched).overall_score ≤ 100)
    × ((score_with fixed request matched).overall_score
        ≡ weighted fixed
            (score_with fixed request matched).keyword_match_rate
            (section_avg fixed (score_with fixed request matched).section_scores)
            (score_formatting fixed request.cv_text)
            (score_impact_language (to_lower_case request.cv_text)))
    × (length (score_with fixed request matched).suggestions ≤ 10)
score_with_bounds_example = score_with_bounds fixed request matched

abbrev own : List String
own = "Add metrics " ∷ "Add a summary" ∷ []

abbrev given : List String
given = " Add metrics" ∷ "  " ∷ "Add links" ∷ []

abbrev merged : List String
merged = "Add metrics" ∷ "Add a summary" ∷ "Add links" ∷ []

merge_test : merge_suggestions own given ≡ merged
unfolding merge_suggestions trim
merge_test = refl

merge_suggestions_sound_example :
    (length (merge_suggestions own given) ≤ 10)
    × IsDistinct (merge_suggestions own given)
    × IsTaken
        (trim_all ("Add metrics " ∷ "Add a summary" ∷ " Add metrics" ∷ "  " ∷ "Add links" ∷ []))
        (merge_suggestions own given)
merge_suggestions_sound_example = merge_suggestions_sound own given
