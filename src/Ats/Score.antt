-- ===== src/Ats/Score.antt =====
-- src/modules/ats/ats.service.ts: the score of a CV, and the suggestions.
pub mod Laws
pub mod Merge
use prismacv_backend.Shared.{
  ℕ, zero, suc, ◌+◌, ◌-◌, ◌≡◌, refl, String, Bool, true, false, not, ◌&&◌, List, [], ◌∷◌, ◌++◌, map,
  length, take, if◌then◌else◌, leb, ltb, ◌==◌, str_eq, min, max, Option, none, some, is_one_of,
}
use prismacv_backend.Shared.Text.{◌&◌, trim, to_lower_case}
use prismacv_backend.Ats.Number.{Double}
use prismacv_backend.Ats.Keywords.{
  Importance, KeywordMatch, option_map, extract_keywords, match_keywords,
}
use prismacv_backend.Ats.Sections.{
  AtsSectionScore, count_of, share_of, is_required, score_sections, score_formatting,
  score_impact_language,
}

pub record AtsScoreRequest : Type 0 where
  pub cv_text : String
  pub job_description : String
  pub skills : Option (List String)

pub record AtsScore : Type 0 where
  pub overall_score : ℕ
  pub keyword_matches : List KeywordMatch
  pub section_scores : List AtsSectionScore
  pub suggestions : List String
  pub missing_keywords : List String
  pub keyword_match_rate : ℕ

abbrev pub is_preferred : Importance → Bool
is_preferred Importance.required = false
is_preferred Importance.preferred = true
is_preferred Importance.bonus = false

-- `filter(k => !k.found && …).map(k => k.keyword)`
abbrev pub lacking : (Importance → Bool) → List KeywordMatch → List String
lacking p [] = []
lacking p (k ∷ ks) =
    let rest = lacking p ks in if not k.found && p k.importance then k.keyword ∷ rest else rest

abbrev pub improve : List AtsSectionScore → List String
improve [] = []
improve (s ∷ ss) =
    let rest = improve ss in
    if ltb s.score 50 then ("Improve your " & s.name & " section: " & s.feedback) ∷ rest else rest

abbrev pub advice : Bool → String → List String
advice b text = if b then text ∷ [] else []

unfoldable pub generate_suggestions : List KeywordMatch → List AtsSectionScore → ℕ → ℕ → List String
generate_suggestions ks sections formatting impact = take 10 (
    map (λ k. "Add \"" & k & "\" to your CV — it's a required keyword in the job description.")
      (take 5 (lacking is_required ks))
    ++ (map (λ k. "Consider adding \"" & k & "\" — it's a preferred qualification.")
          (take 3 (lacking is_preferred ks))
        ++ (improve sections
            ++ (advice (ltb formatting 60)
                  "Improve CV formatting: use bullet points, clear section headers, and keep length between 1-3 pages."
                ++ advice (ltb impact 40)
                    "Use more action verbs and quantifiable achievements (e.g., \"Increased revenue by 25%\", \"Led a team of 8\")."))))

-- The loop over the trimmed suggestions, with the Set that it fills.
unfoldable pub add_unique : List String → List String → List String
add_unique unique [] = unique
add_unique unique (s ∷ ss) =
    let t = trim s in
    let grown = if is_one_of t unique then unique else unique ++ (t ∷ []) in
    let skip = add_unique unique ss in
    let more = add_unique grown ss in
    if str_eq t "" then skip else if leb 10 (length grown) then grown else more

unfoldable pub merge_suggestions : List String → List String → List String
unfolding add_unique
merge_suggestions heuristic llm = add_unique [] (heuristic ++ llm)

abbrev pub sum_scores : List AtsSectionScore → ℕ
sum_scores [] = 0
sum_scores (s ∷ ss) = s.score + sum_scores ss

module _ (d : Double) where
  abbrev pub match_rate : List KeywordMatch → ℕ
  match_rate ks =
      if ltb 0 (length ks)
      then share_of d (count_of (λ (k : KeywordMatch). k.found) ks) (length ks) 100
      else 0

  abbrev pub section_avg : List AtsSectionScore → d.Num
  section_avg ss =
      if ltb 0 (length ss) then d.over (d.of (sum_scores ss)) (d.of (length ss)) else d.of 0

  -- The weighted score, before it is clamped.
  abbrev pub weighted : ℕ → d.Num → ℕ → ℕ → ℕ
  weighted rate avg formatting impact = d.round (
      d.add
        (d.add (d.add (d.times (d.of rate) d.d04) (d.times avg d.d03))
          (d.times (d.of formatting) d.d015))
        (d.times (d.of impact) d.d015))

  -- The score of `analyze` without a language model, for the matches of the keywords.
  unfoldable pub score_with : AtsScoreRequest → List KeywordMatch → AtsScore
  unfolding score_sections score_formatting score_impact_language generate_suggestions
  score_with dto ks =
      let cv = to_lower_case dto.cv_text in
      let jd = to_lower_case dto.job_description in
      let sections = score_sections d cv jd ks in
      let formatting = score_formatting d dto.cv_text in
      let impact = score_impact_language cv in
      record {
        overall_score =
            min 100 (max 0 (weighted (match_rate ks) (section_avg sections) formatting impact));
        keyword_matches = ks;
        section_scores = sections;
        suggestions = generate_suggestions ks sections formatting impact;
        missing_keywords = lacking (λ i. true) ks;
        keyword_match_rate = match_rate ks;
      }

  unfoldable pub score_of : AtsScoreRequest → Option AtsScore
  unfolding extract_keywords match_keywords score_with
  score_of dto =
      let jd = to_lower_case dto.job_description in
      option_map (score_with dto) (
        match_keywords (extract_keywords jd dto.job_description) (to_lower_case dto.cv_text)
          dto.skills)
