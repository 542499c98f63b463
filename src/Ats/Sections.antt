-- ===== src/Ats/Sections.antt =====
-- src/modules/ats/ats.service.ts: the scores of the sections of a CV, of its format and its language.
use Prim.Native.Char.{Char, code}
use prismacv_backend.Shared.{
  ℕ, ◌+◌, ◌*◌, String, Bool, true, false, not, ◌&&◌, ◌||◌, List, [], ◌∷◌, ◌++◌, length, take,
  if◌then◌else◌, leb, ltb, ◌==◌, str_eq, min, is_one_of,
}
use prismacv_backend.Shared.Text.{◌&◌, js_length, is_space, trim}
use prismacv_backend.Ats.Number.{Double}
use prismacv_backend.Ats.Regex.{
  test, count_matches, count_all, includes, starts_in, is_alnum, is_one, email_regex, phone_regex,
  quantifier_regex, metric_regex,
}
use prismacv_backend.Ats.Words.{stop_words, impact_words}
use prismacv_backend.Ats.Keywords.{
  Importance, KeywordMatch, any_included, words_of, slice_units, is_word_char,
}

pub record AtsSectionScore : Type 0 where
  pub name : String
  pub score : ℕ
  pub feedback : String

abbrev pub points : Bool → ℕ → ℕ
points b n = if b then n else 0

-- `xs.filter(p).length`
abbrev pub count_of : {A : Type 0} → (A → Bool) → List A → ℕ
count_of p [] = 0
count_of p (x ∷ xs) = (if p x then 1 else 0) + count_of p xs

abbrev pub graded : ℕ → ℕ → ℕ → String → String → String → String
graded score high low good fair poor =
    if leb high score then good else if leb low score then fair else poor

abbrev pub join : List String → String
join [] = ""
join (w ∷ []) = w
join (w ∷ v ∷ ws) = w & ", " & join (v ∷ ws)

abbrev pub missing : Bool → String → List String
missing b what = if b then [] else what ∷ []

unfoldable pub score_contact_info : String → AtsSectionScore
unfolding test includes
score_contact_info cv =
    let email = test email_regex cv in
    let phone = test phone_regex cv in
    let linkedin = includes cv "linkedin" in
    let checks =
      missing email "email"
      ++ (missing phone "phone number" ++ missing linkedin "LinkedIn profile") in
    record {
      name = "Contact Info";
      score =
          points email 25 + points phone 25 + points linkedin 25 + points (ltb 0 (js_length cv)) 25;
      feedback =
          if length checks == 0
          then "Contact information is complete."
          else "Missing: " & join checks & ".";
    }

-- Points for at least `many`, or for at least `some`.
abbrev pub tiers : ℕ → ℕ → ℕ → ℕ → ℕ → ℕ
tiers n many high few low = if leb many n then high else if leb few n then low else 0

abbrev pub impact_count : String → ℕ
impact_count cv = count_of (includes cv) impact_words

abbrev pub experience_score : String → ℕ
experience_score cv =
    points (any_included cv ("experience" ∷ "employment" ∷ "work history" ∷ [])) 30
    + tiers (count_all quantifier_regex cv) 3 40 1 20
    + tiers (impact_count cv) 5 30 2 15

unfoldable pub score_experience : String → AtsSectionScore
unfolding count_matches includes
score_experience cv = record {
  name = "Experience";
  score = experience_score cv;
  feedback =
      graded (experience_score cv) 80 50
        "Experience section is well-structured with quantifiable achievements."
        "Experience section present but could use more quantifiable achievements."
        "Add more quantifiable achievements and action verbs to your experience section.";
}

abbrev pub is_required : Importance → Bool
is_required Importance.required = true
is_required Importance.preferred = false
is_required Importance.bonus = false

abbrev pub education_score : String → ℕ
education_score cv =
    points (any_included cv ("education" ∷ "degree" ∷ "university" ∷ "college" ∷ [])) 50
    + points
        (any_included cv (
          "bachelor" ∷ "master" ∷ "phd" ∷ "mba" ∷ "b.s." ∷ "m.s." ∷ "b.a." ∷ "m.a." ∷ "associate"
          ∷ []))
        30
    + points (any_included cv ("certification" ∷ "certified" ∷ "certificate" ∷ [])) 20

unfoldable pub score_education : String → AtsSectionScore
unfolding includes
score_education cv = record {
  name = "Education";
  score = education_score cv;
  feedback =
      graded (education_score cv) 80 50 "Education section is well documented."
        "Education section is adequate."
        "Consider adding more educational details or certifications.";
}

-- The words of the description, each once, in the order of their first occurrence.
abbrev pub once : List String → List String → List String
once seen [] = []
once seen (w ∷ ws) =
    let rest = once (w ∷ seen) ws in
    let skipped = once seen ws in if is_one_of w seen then skipped else w ∷ rest

abbrev pub keep_long : List String → List String
keep_long [] = []
keep_long (w ∷ ws) =
    let rest = keep_long ws in
    if ltb 3 (js_length w) && not (is_one_of w stop_words) then w ∷ rest else rest

abbrev pub jd_words : String → List String
jd_words jd = take 20 (once [] (keep_long (words_of is_alnum "" jd)))

-- `cvText.split(/\s+/).length`: one more than the runs of spaces.
unfoldable pub word_count : Bool → String → ℕ
word_count inside String.[] = 1
word_count inside (String.◌∷◌ c s) =
    if is_space c then (if inside then 0 else 1) + word_count true s else word_count false s

unfoldable pub split_lines : String → String → List String
split_lines line String.[] = line ∷ []
split_lines line (String.◌∷◌ c s) =
    let next = split_lines "" s in
    let more = split_lines (line & String.◌∷◌ c "") s in if code c == 10 then line ∷ next else more

abbrev pub keep_filled : List String → List String
keep_filled [] = []
keep_filled (l ∷ ls) = let rest = keep_filled ls in if str_eq (trim l) "" then rest else l ∷ rest

-- /[^\w\s.,;:!?@#$%&*()\-+/'"•▪◦\-*]/
abbrev pub is_special : Char → Bool
is_special c = not (is_word_char c || is_space c || is_one ".,;:!?@#$%&*()-+/'\"•▪◦" c)

-- The matches are units of the text, of which a character past 0xffff has two.
unfoldable pub special_chars : String → ℕ
special_chars String.[] = 0
special_chars (String.◌∷◌ c s) =
    points (is_special c) (if ltb (code c) 0x10000 then 1 else 2) + special_chars s

-- /^\s*[-•*▪◦]\s/
unfoldable pub is_bullet : String → Bool
is_bullet String.[] = false
is_bullet (String.◌∷◌ c s) =
    let later = is_bullet s in
    if is_space c then later else is_one "-•*▪◦" c && starts_in is_space s

module _ (d : Double) where
  -- `Math.round((a / b) * m)`
  abbrev pub share_of : ℕ → ℕ → ℕ → ℕ
  share_of a b m = d.round (d.times (d.over (d.of a) (d.of b)) (d.of m))

  abbrev pub overlap : List KeywordMatch → ℕ
  overlap ks =
      let needed = count_of (λ (k : KeywordMatch). is_required k.importance) ks in
      let covered = count_of (λ (k : KeywordMatch). is_required k.importance && k.found) ks in
      let any =
        if ltb 0 (length ks)
        then share_of (count_of (λ (k : KeywordMatch). k.found) ks) (length ks) 80
        else 0 in
      if ltb 0 needed then share_of covered needed 80 else any

  abbrev pub skills_score : String → List KeywordMatch → ℕ
  skills_score cv ks =
      points (any_included cv ("skills" ∷ "technologies" ∷ "technical" ∷ [])) 20 + overlap ks

  unfoldable pub score_skills : String → List KeywordMatch → AtsSectionScore
  unfolding includes
  score_skills cv ks = record {
    name = "Skills";
    score = skills_score cv ks;
    feedback =
        graded (skills_score cv ks) 80 50 "Skills section aligns well with job requirements."
          "Skills section partially matches. Add missing required keywords."
          "Skills section needs significant improvement to match job requirements.";
  }

  abbrev pub summary_score : String → String → ℕ
  summary_score cv jd =
      let words = jd_words jd in
      let hits = count_of (includes (slice_units 0 500 cv)) words in
      points (any_included cv ("summary" ∷ "objective" ∷ "profile" ∷ "about me" ∷ [])) 40
      + (if ltb 0 (length words) then share_of hits (length words) 60 else 0)

  unfoldable pub score_summary : String → String → AtsSectionScore
  unfolding includes words_of slice_units
  score_summary cv jd = record {
    name = "Summary/Profile";
    score = summary_score cv jd;
    feedback =
        graded (summary_score cv jd) 70 40 "Summary/profile section effectively targets the role."
          "Summary present but could better reflect job description keywords."
          "Add a professional summary that incorporates keywords from the target role.";
  }

  unfoldable pub score_sections : String → String → List KeywordMatch → List AtsSectionScore
  unfolding score_contact_info score_experience score_skills score_education score_summary
  score_sections cv jd ks =
      score_contact_info cv
      ∷ score_experience cv
      ∷ score_skills cv ks
      ∷ score_education cv
      ∷ score_summary cv jd
      ∷ []

  unfoldable pub score_formatting : String → ℕ
  unfolding word_count split_lines special_chars is_bullet trim
  score_formatting cv =
      let words = word_count false cv in
      let lines = keep_filled (split_lines "" cv) in
      let bullets = count_of is_bullet lines in
      min 100 (
        (if leb 300 words && leb words 5000 then 30 else points (leb 100 words) 15)
        + points (leb 10 (length lines)) 20
        + (if d.less (d.of (special_chars cv)) (d.times (d.of (js_length cv)) d.d002)
            then 25
            else 10)
        + (if leb 5 bullets then 25 else if leb 2 bullets then 15 else 5))

unfoldable pub score_impact_language : String → ℕ
unfolding count_matches includes
score_impact_language cv =
    min 100 (min 50 (impact_count cv * 5) + min 50 (count_all metric_regex cv * 10))
