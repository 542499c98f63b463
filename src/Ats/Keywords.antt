-- ===== src/Ats/Keywords.antt =====
-- src/modules/ats/ats.service.ts: the keywords of a job description, and whether a CV has them.
use Prim.Native.Char.{Char, code}
use prismacv_backend.Shared.{
  ℕ, zero, suc, ◌+◌, ◌-◌, String, Bool, true, false, not, ◌&&◌, ◌||◌, List, [], ◌∷◌, map,
  if◌then◌else◌, leb, ltb, ◌==◌, str_eq, Option, none, some, or_default, is_one_of,
}
use prismacv_backend.Shared.Text.{◌&◌, js_length, is_space, to_lower_case}
use prismacv_backend.Ats.Regex.{
  Regex, matches, first_left, starts_with, starts_in, includes, is_alnum, is_one, ◌⋯◌,
}
use prismacv_backend.Ats.Words.{
  stop_words, technical_terms, required_indicators, preferred_indicators, bonus_indicators,
}

pub data Importance : Type 0 where
  required preferred bonus : Importance

pub record KeywordMatch : Type 0 where
  pub keyword : String
  pub found : Bool
  pub importance : Importance

-- A Map with its entries in the order of insertion.
abbrev pub Keywords : Type 0
Keywords = List (String × Importance)

abbrev pub has_keyword : Keywords → String → Bool
has_keyword [] k = false
has_keyword ((j, i) ∷ m) k = str_eq j k || has_keyword m k

abbrev pub set_keyword : String → Importance → Keywords → Keywords
set_keyword k i [] = (k, i) ∷ []
set_keyword k i ((j, i') ∷ m) = if str_eq j k then (k, i) ∷ m else (j, i') ∷ set_keyword k i m

-- `s.indexOf(t)`, none for -1
unfoldable pub index_of : String → String → Option ℕ
unfolding starts_with
index_of String.[] t = if str_eq t "" then some 0 else none
index_of (String.◌∷◌ c s) t =
    let later = index_of s t in
    if starts_with t (String.◌∷◌ c s)
    then some 0
    else elim later [ none ↦ none | some n ↦ some ((if ltb (code c) 0x10000 then 1 else 2) + n) ]

-- `s.slice(from, to)`; a character of two units is cut off as a whole.
unfoldable pub slice_units : ℕ → ℕ → String → String
slice_units from to String.[] = ""
slice_units from to (String.◌∷◌ c s) =
    let w = if ltb (code c) 0x10000 then 1 else 2 in
    let rest = slice_units (from - w) (to - w) s in
    if leb w to then (if from == 0 then String.◌∷◌ c rest else rest) else ""

abbrev pub any_included : String → List String → Bool
any_included s [] = false
any_included s (w ∷ ws) = includes s w || any_included s ws

abbrev pub importance_in : String → String → Importance
importance_in context keyword =
    if any_included context required_indicators
    then Importance.required
    else if any_included context preferred_indicators
    then Importance.preferred
    else if any_included context bonus_indicators
    then Importance.bonus
    else if is_one_of keyword technical_terms
    then Importance.required
    else Importance.preferred

unfoldable pub determine_importance : String → String → Importance
unfolding index_of slice_units includes
determine_importance jd keyword = elim (index_of jd keyword) [
  | none ↦ Importance.bonus
  | some i ↦ importance_in (slice_units (i - 100) (i + js_length keyword + 100) jd) keyword
]

abbrev pub add_keyword : String → String → Keywords → Keywords
add_keyword jd k m = set_keyword k (determine_importance jd k) m

-- The terms of several words.
abbrev pub add_phrases : String → List String → Keywords → Keywords
add_phrases jd [] m = m
add_phrases jd (t ∷ ts) m =
    add_phrases jd ts (if includes t " " && includes jd t then add_keyword jd t m else m)

-- `replace(/[^a-z0-9#+./\-]/g, ' ').split(/\s+/)`, without the empty words, which are skipped for
-- their length. The second argument is the word that is read.
abbrev pub is_term_char : Char → Bool
is_term_char c = is_alnum c || is_one "#+./-" c

abbrev pub close_word : String → List String → List String
close_word w ws = if str_eq w "" then ws else w ∷ ws

unfoldable pub words_of : (Char → Bool) → String → String → List String
words_of p w String.[] = close_word w []
words_of p w (String.◌∷◌ c s) =
    let inside = words_of p (w & String.◌∷◌ c "") s in
    let outside = words_of p "" s in if p c then inside else close_word w outside

abbrev pub add_words : String → List String → Keywords → Keywords
add_words jd [] m = m
add_words jd (w ∷ ws) m =
    let is_term =
      leb 2 (js_length w) && not (is_one_of w stop_words) && is_one_of w technical_terms in
    add_words jd ws (if is_term then add_keyword jd w m else m)

abbrev pub is_capital : Char → Bool
is_capital c = leb b'A' (code c) && leb (code c) b'Z'

abbrev pub is_word_char : Char → Bool
is_word_char c = is_alnum c || is_capital c || code c == b'_'

-- /([A-Z][a-zA-Z0-9]*(?:\s[A-Z][a-zA-Z0-9]*)*)\b/ on a text of at most n characters
abbrev pub capital_word : ℕ → Regex
capital_word n =
    Regex.char_in is_capital ⋯ Regex.repeat_of 0 n (Regex.char_in (λ c. is_alnum c || is_capital c))

abbrev pub capital_regex : ℕ → Regex
capital_regex n =
    capital_word n
    ⋯ Regex.repeat_of 0 n (Regex.char_in is_space ⋯ capital_word n)
    ⋯ Regex.not_before is_word_char

-- The terms that the pattern finds. The flag says that a word goes on; the fuel is the length of the
-- text, which shrinks in each step.
unfoldable pub capital_terms : ℕ → Bool → String → List String
unfolding matches slice_units
capital_terms zero inside s = []
capital_terms (suc fuel) inside String.[] = []
capital_terms (suc fuel) inside (String.◌∷◌ c s) =
    let text = String.◌∷◌ c s in
    elim (first_left (if inside then [] else matches (capital_regex (js_length text)) text)) [
      | none ↦ capital_terms fuel (is_word_char c) s
      | some rest ↦
          slice_units 0 (js_length text - js_length rest) text ∷ capital_terms fuel true rest
    ]

abbrev pub add_capitals : String → List String → Keywords → Keywords
add_capitals jd [] m = m
add_capitals jd (t ∷ ts) m =
    let low = to_lower_case t in
    let is_term =
      leb 2 (js_length t)
      && not (is_one_of low stop_words)
      && is_one_of low technical_terms
      && not (has_keyword m low) in
    add_capitals jd ts (if is_term then add_keyword jd low m else m)

abbrev pub add_one : String → List (String × ℕ) → List (String × ℕ)
add_one w [] = (w, 1) ∷ []
add_one w ((v, n) ∷ m) = if str_eq v w then (v, n + 1) ∷ m else (v, n) ∷ add_one w m

abbrev pub frequencies : Keywords → List String → List (String × ℕ) → List (String × ℕ)
frequencies m [] freq = freq
frequencies m (w ∷ ws) freq =
    let counts = leb 3 (js_length w) && not (is_one_of w stop_words) && not (has_keyword m w) in
    frequencies m ws (if counts then add_one w freq else freq)

abbrev pub add_frequent : List (String × ℕ) → Keywords → Keywords
add_frequent [] m = m
add_frequent ((w, n) ∷ freq) m =
    add_frequent freq
      (if leb 2 n && not (has_keyword m w) then set_keyword w Importance.bonus m else m)

unfoldable pub extract_keywords : String → String → Keywords
unfolding determine_importance words_of capital_terms includes
extract_keywords jd original =
    let words = words_of is_term_char "" jd in
    let terms =
      add_capitals jd (capital_terms (js_length original) false original)
        (add_words jd words (add_phrases jd technical_terms [])) in
    add_frequent (frequencies terms words []) terms

abbrev pub last_in : (Char → Bool) → String → Bool
last_in p String.[] = false
last_in p (String.◌∷◌ c s) = if str_eq s "" then p c else last_in p s

abbrev pub differs : Bool → Bool → Bool
differs true b = not b
differs false b = b

-- `\bkeyword\b`, anywhere in a text; the flag says that the character before is of a word.
unfoldable pub has_word : String → Bool → String → Bool
unfolding starts_with slice_units
has_word keyword inside String.[] = false
has_word keyword inside (String.◌∷◌ c s) =
    let later = has_word keyword (is_word_char c) s in
    let behind = slice_units (js_length keyword) (js_length (String.◌∷◌ c s)) (String.◌∷◌ c s) in
    starts_with keyword (String.◌∷◌ c s)
      && differs inside (starts_in is_word_char keyword)
      && differs (last_in is_word_char keyword) (starts_in is_word_char behind)
    || later

abbrev pub replace_in : (Char → Bool) → String → String → String
replace_in p by String.[] = ""
replace_in p by (String.◌∷◌ c s) = (if p c then by else String.◌∷◌ c "") & replace_in p by s

abbrev pub abbreviations : List (String × List String)
abbreviations =
    ("javascript", "js" ∷ [])
    ∷ ("typescript", "ts" ∷ [])
    ∷ ("kubernetes", "k8s" ∷ [])
    ∷ ("postgresql", "postgres" ∷ "psql" ∷ [])
    ∷ ("continuous integration", "ci" ∷ [])
    ∷ ("continuous deployment", "cd" ∷ [])
    ∷ ("ci/cd", "cicd" ∷ "ci cd" ∷ [])
    ∷ []

-- The entry of a key. The object inherits one, `constructor`, which is no list: its `some` throws.
abbrev pub variants_of : String → List (String × List String) → Option (List String)
variants_of k [] = if str_eq k "constructor" then none else some []
variants_of k ((j, vs) ∷ rest) = if str_eq j k then some vs else variants_of k rest

abbrev pub option_map : {A B : Type 0} → (A → B) → Option A → Option B
option_map f none = none
option_map f (some x) = some (f x)

-- None where the code throws a TypeError.
unfoldable pub check_variations : String → String → Option Bool
unfolding includes
check_variations keyword cv =
    if includes cv (keyword & "s")
      || includes cv (keyword & "es")
      || includes cv (replace_in (λ c. is_space c || is_one "-./" c) "" keyword)
      || includes cv (replace_in (λ c. is_space c || is_one "./" c) "-" keyword)
      || includes cv (replace_in (is_one "-./") " " keyword)
    then some true
    else option_map (any_included cv) (variants_of keyword abbreviations)

abbrev pub match_keyword : String → List String → String × Importance → Option KeywordMatch
unfolding has_word check_variations
match_keyword cv skills (keyword, importance) =
    option_map (λ b. record { keyword = keyword; found = b; importance = importance })
      (if has_word keyword false cv || is_one_of keyword skills
        then some true
        else check_variations keyword cv)

abbrev pub match_each : String → List String → Keywords → Option (List KeywordMatch)
match_each cv skills [] = some []
match_each cv skills (k ∷ ks) =
    let rest = match_each cv skills ks in
    elim (match_keyword cv skills k) [ none ↦ none | some m ↦ option_map (λ ms. m ∷ ms) rest ]

unfoldable pub match_keywords :
    Keywords → String → Option (List String) → Option (List KeywordMatch)
unfolding has_word check_variations
match_keywords keywords cv skills =
    match_each cv (map to_lower_case (or_default skills [])) keywords
