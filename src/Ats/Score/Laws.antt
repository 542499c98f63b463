-- ===== src/Ats/Score/Laws.antt =====
-- The scores are at most 100, so that the clamp of the overall score is idle.
use prismacv_backend.Shared.{
  ℕ, zero, suc, ◌+◌, ◌*◌, ◌≤◌, ◌<◌, ◌≡◌, subst, String, Bool, ◌&&◌, List, [], ◌∷◌, length, take,
  if◌then◌else◌, ltb, min, max, arith, inl, inr, Bool-cases,
}
use prismacv_backend.Shared.Text.{js_length, to_lower_case}
use prismacv_backend.Ats.Number.{Double}
use prismacv_backend.Ats.Regex.{
  count_all, quantifier_regex, email_regex, phone_regex, test, includes,
}
use prismacv_backend.Ats.Keywords.{KeywordMatch, any_included, slice_units}
use prismacv_backend.Ats.Sections.{
  AtsSectionScore, count_of, points, tiers, share_of, overlap, is_required, jd_words, impact_count,
  score_contact_info, score_experience, score_skills, score_education, score_summary,
  score_sections, score_formatting, score_impact_language,
}
use prismacv_backend.Ats.Score.{
  AtsScoreRequest, match_rate, section_avg, sum_scores, weighted, score_with, generate_suggestions,
}

points_bound : (b : Bool) (n : ℕ) → points b n ≤ n
points_bound b n = ground arith

count_of_bound : {A : Type 0} (p : A → Bool) (xs : List A) → count_of p xs ≤ length xs
count_of_bound p [] = omega arith
count_of_bound p (x ∷ xs) = ground (arith, count_of_bound p xs)

count_of-both :
    {A : Type 0} (p q : A → Bool) (xs : List A) → count_of (λ x. p x && q x) xs ≤ count_of p xs
count_of-both p q [] = omega arith
count_of-both p q (x ∷ xs) = ground (arith, count_of-both p q xs)

take_bound : {A : Type 0} (n : ℕ) (xs : List A) → length (take n xs) ≤ n
take_bound zero xs = omega arith
take_bound (suc n) [] = omega arith
take_bound (suc n) (x ∷ xs) = omega (arith, take_bound n xs)

-- Every section has at most 100 points.
abbrev pub IsScored : List AtsSectionScore → Type 0
IsScored [] = Unit
IsScored (s ∷ ss) = (s.score ≤ 100) × IsScored ss

sum_scores_bound : (ss : List AtsSectionScore) → IsScored ss → sum_scores ss ≤ 100 * length ss
sum_scores_bound [] h = omega arith
sum_scores_bound (s ∷ ss) (h, hs) = omega (arith, h, sum_scores_bound ss hs)

tiers_bound : (n many high few low : ℕ) → low ≤ high → tiers n many high few low ≤ high
tiers_bound n many high few low h = ground (arith, h)

two : {a b x y : ℕ} → a ≤ x → b ≤ y → x + y ≤ 100 → a + b ≤ 100
two h k l = omega (arith, h, k, l)

three : {a b c x y z : ℕ} → a ≤ x → b ≤ y → c ≤ z → x + y + z ≤ 100 → a + b + c ≤ 100
three h k l m = omega (arith, h, k, l, m)

four : {a b c d : ℕ} → a ≤ 25 → b ≤ 25 → c ≤ 25 → d ≤ 25 → a + b + c + d ≤ 100
four h k l m = omega (arith, h, k, l, m)

min_bound : (m n : ℕ) → min m n ≤ m
min_bound m n = omega arith

module _ (d : Double) where
  share_bound : (a b m : ℕ) → a ≤ b → 0 < b → m ≤ 100 → share_of d a b m ≤ m
  share_bound a b m le pos small =
      let ratio =
        subst (d.IsBelow (d.over (d.of a) (d.of b))) (d.over-self b pos)
          (d.over-IsBelow (d.of a) (d.of b) b pos (d.of-IsBelow a b le)) in
      d.round-IsBelow (d.times (d.over (d.of a) (d.of b)) (d.of m)) m (omega (arith, small))
        (d.times-IsBelow-one (d.over (d.of a) (d.of b)) m (omega (arith, small)) ratio)

  overlap_bound : (ks : List KeywordMatch) → overlap d ks ≤ 80
  overlap_bound ks =
      let needed = count_of (λ (k : KeywordMatch). is_required k.importance) ks in
      let covered = count_of (λ (k : KeywordMatch). is_required k.importance && k.found) ks in
      let found = count_of (λ (k : KeywordMatch). k.found) ks in
      elim (Bool-cases (ltb 0 needed)) [
        | inl e ↦ rw e (
            share_bound covered needed 80
              (count_of-both (λ k. is_required k.importance) (λ k. k.found) ks) (ground (arith, e))
              (omega arith))
        | inr e ↦ rw e (elim (Bool-cases (ltb 0 (length ks))) [
          | inl f ↦ rw f (
              share_bound found (length ks) 80 (count_of_bound (λ k. k.found) ks)
                (ground (arith, f)) (omega arith))
          | inr f ↦ rw f (omega arith)
        ])
      ]

  pub match_rate_bound : (ks : List KeywordMatch) → match_rate d ks ≤ 100
  match_rate_bound ks = elim (Bool-cases (ltb 0 (length ks))) [
    | inl f ↦ rw f (
        share_bound (count_of (λ (k : KeywordMatch). k.found) ks) (length ks) 100
          (count_of_bound (λ k. k.found) ks) (ground (arith, f)) (omega arith))
    | inr f ↦ rw f (omega arith)
  ]

  summary_bound :
      (words : List String) (p : String → Bool)
      → (if ltb 0 (length words) then share_of d (count_of p words) (length words) 60 else 0) ≤ 60
  summary_bound words p = elim (Bool-cases (ltb 0 (length words))) [
    | inl f ↦ rw f (
        share_bound (count_of p words) (length words) 60 (count_of_bound p words)
          (ground (arith, f)) (omega arith))
    | inr f ↦ rw f (omega arith)
  ]

  contact_bound : (cv : String) → (score_contact_info cv).score ≤ 100
  unfolding score_contact_info
  contact_bound cv =
      four (points_bound (test email_regex cv) 25) (points_bound (test phone_regex cv) 25)
        (points_bound (includes cv "linkedin") 25) (points_bound (ltb 0 (js_length cv)) 25)

  experience_bound : (cv : String) → (score_experience cv).score ≤ 100
  unfolding score_experience
  experience_bound cv =
      three (points_bound (any_included cv ("experience" ∷ "employment" ∷ "work history" ∷ [])) 30)
        (tiers_bound (count_all quantifier_regex cv) 3 40 1 20 (omega arith))
        (tiers_bound (impact_count cv) 5 30 2 15 (omega arith)) (omega arith)

  education_bound : (cv : String) → (score_education cv).score ≤ 100
  unfolding score_education
  education_bound cv =
      three
        (points_bound (any_included cv ("education" ∷ "degree" ∷ "university" ∷ "college" ∷ [])) 50)
        (points_bound
          (any_included cv (
            "bachelor" ∷ "master" ∷ "phd" ∷ "mba" ∷ "b.s." ∷ "m.s." ∷ "b.a." ∷ "m.a." ∷ "associate"
            ∷ []))
          30)
        (points_bound (any_included cv ("certification" ∷ "certified" ∷ "certificate" ∷ [])) 20)
        (omega arith)

  skills_bound : (cv : String) (ks : List KeywordMatch) → (score_skills d cv ks).score ≤ 100
  unfolding score_skills
  skills_bound cv ks =
      two (points_bound (any_included cv ("skills" ∷ "technologies" ∷ "technical" ∷ [])) 20)
        (overlap_bound ks) (omega arith)

  summary_score_bound : (cv jd : String) → (score_summary d cv jd).score ≤ 100
  unfolding score_summary
  summary_score_bound cv jd =
      two
        (points_bound (any_included cv ("summary" ∷ "objective" ∷ "profile" ∷ "about me" ∷ [])) 40)
        (summary_bound (jd_words jd) (includes (slice_units 0 500 cv))) (omega arith)

  score_sections_bound :
      (cv jd : String) (ks : List KeywordMatch) → IsScored (score_sections d cv jd ks)
  unfolding score_sections
  score_sections_bound cv jd ks = (
    contact_bound cv,
    (
      experience_bound cv,
      (skills_bound cv ks, (education_bound cv, (summary_score_bound cv jd, tt))),
    ),
  )

  length-score_sections :
      (cv jd : String) (ks : List KeywordMatch) → length (score_sections d cv jd ks) ≤ 5
  unfolding score_sections
  length-score_sections cv jd ks = omega arith

  section_avg_bound :
      (ss : List AtsSectionScore)
      → IsScored ss
      → length ss ≤ 5
      → d.IsBelow (section_avg d ss) (d.of 100)
  section_avg_bound ss h few = elim (Bool-cases (ltb 0 (length ss))) [
    | inr e ↦ rw e (d.of-IsBelow 0 100 (omega arith))
    | inl e ↦ rw e (
        subst (d.IsBelow (d.over (d.of (sum_scores ss)) (d.of (length ss))))
          (d.over-of 100 (length ss) (ground (arith, e)) (omega (arith, few)))
          (d.over-IsBelow (d.of (sum_scores ss)) (d.of (100 * length ss)) (length ss)
            (ground (arith, e))
            (d.of-IsBelow (sum_scores ss) (100 * length ss) (sum_scores_bound ss h))))
  ]

  -- A sum of two numbers below two exact ones.
  plus_bound :
      (a b : d.Num) (m n : ℕ)
      → m + n ≤ 100
      → d.IsBelow a (d.of m)
      → d.IsBelow b (d.of n)
      → d.IsBelow (d.add a b) (d.of (m + n))
  plus_bound a b m n small h k =
      subst (d.IsBelow (d.add a b)) (d.add-of m n (omega (arith, small)))
        (d.add-IsBelow a (d.of m) b (d.of n) h k)

  d015_bound : (n : ℕ) → n ≤ 100 → d.IsBelow (d.times (d.of n) d.d015) (d.of 15)
  d015_bound n h =
      subst (d.IsBelow (d.times (d.of n) d.d015)) d.times-d015
        (d.times-d015-IsBelow (d.of n) (d.of 100) (d.of-IsBelow n 100 h))

  weighted_bound :
      (rate : ℕ) (avg : d.Num) (formatting impact : ℕ)
      → rate ≤ 100
      → d.IsBelow avg (d.of 100)
      → formatting ≤ 100
      → impact ≤ 100
      → weighted d rate avg formatting impact ≤ 100
  weighted_bound rate avg formatting impact r a f i =
      let t1 =
        subst (d.IsBelow (d.times (d.of rate) d.d04)) d.times-d04
          (d.times-d04-IsBelow (d.of rate) (d.of 100) (d.of-IsBelow rate 100 r)) in
      let t2 =
        subst (d.IsBelow (d.times avg d.d03)) d.times-d03 (d.times-d03-IsBelow avg (d.of 100) a) in
      let t3 = d015_bound formatting f in
      let t4 = d015_bound impact i in
      let s2 =
        plus_bound (d.times (d.of rate) d.d04) (d.times avg d.d03) 40 30 (omega arith) t1 t2 in
      let s3 =
        plus_bound (d.add (d.times (d.of rate) d.d04) (d.times avg d.d03))
          (d.times (d.of formatting) d.d015) 70 15 (omega arith) s2 t3 in
      d.round-IsBelow
        (d.add
          (d.add (d.add (d.times (d.of rate) d.d04) (d.times avg d.d03))
            (d.times (d.of formatting) d.d015))
          (d.times (d.of impact) d.d015))
        100 (omega arith)
        (plus_bound
          (d.add (d.add (d.times (d.of rate) d.d04) (d.times avg d.d03))
            (d.times (d.of formatting) d.d015))
          (d.times (d.of impact) d.d015) 85 15 (omega arith) s3 t4)

  formatting_bound : (cv : String) → score_formatting d cv ≤ 100
  unfolding score_formatting
  formatting_bound cv = min_bound 100 _

  impact_bound : (cv : String) → score_impact_language cv ≤ 100
  unfolding score_impact_language
  impact_bound cv = min_bound 100 _

  clamp_idle : (n : ℕ) → n ≤ 100 → min 100 (max 0 n) ≡ n
  clamp_idle n h = omega (arith, h)

  length-generate_suggestions :
      (ks : List KeywordMatch) (ss : List AtsSectionScore) (f i : ℕ)
      → length (generate_suggestions ks ss f i) ≤ 10
  unfolding generate_suggestions
  length-generate_suggestions ks ss f i = take_bound {A = String} 10 _

  -- Each section, and the rate of keywords that match, score at most 100; the overall score is the
  -- weighted sum itself, which is at most 100, so that the clamp is idle; and there are at most ten
  -- suggestions.
  pub score_with_bounds :
      (dto : AtsScoreRequest) (ks : List KeywordMatch)
      → IsScored (score_with d dto ks).section_scores
        × ((score_with d dto ks).keyword_match_rate ≤ 100)
        × ((score_with d dto ks).overall_score ≤ 100)
        × ((score_with d dto ks).overall_score
            ≡ weighted d
                (score_with d dto ks).keyword_match_rate
                (section_avg d (score_with d dto ks).section_scores)
                (score_formatting d dto.cv_text)
                (score_impact_language (to_lower_case dto.cv_text)))
        × (length (score_with d dto ks).suggestions ≤ 10)
  unfolding score_with
  score_with_bounds dto ks =
      let cv = to_lower_case dto.cv_text in
      let jd = to_lower_case dto.job_description in
      let scored = score_sections_bound cv jd ks in
      let few =
        weighted_bound (match_rate d ks) (section_avg d (score_sections d cv jd ks))
          (score_formatting d dto.cv_text) (score_impact_language cv) (match_rate_bound ks)
          (section_avg_bound (score_sections d cv jd ks) scored (length-score_sections cv jd ks))
          (formatting_bound dto.cv_text) (impact_bound cv) in
      (
        scored,
        match_rate_bound ks,
        min_bound 100 _,
        clamp_idle _ few,
        length-generate_suggestions ks (score_sections d cv jd ks) (score_formatting d dto.cv_text)
            (score_impact_language cv),
      )
