-- ===== src/Ats/Regex.antt =====
-- What src/modules/ats/ats.service.ts uses of the regular expressions and the text search of the
-- language: backtracking matches in the order in which they are tried, and leftmost searches.
use Prim.Native.Char.{Char, code}
use prismacv_backend.Shared.{
  ℕ, zero, suc, ◌+◌, ◌-◌, ◌≡◌, refl, String, Bool, true, false, ◌&&◌, ◌||◌, List, [], ◌∷◌, ◌++◌,
  if◌then◌else◌, leb, ◌==◌, str_eq, Option, none, some,
}
use prismacv_backend.Shared.Text.{js_length, is_space}

-- A class of characters, a sequence, a choice, and a repetition with its least number and the
-- greatest number of further ones.
pub data Regex : Type 0 where
  char_in : (Char → Bool) → Regex
  seq : Regex → Regex → Regex
  alt : Regex → Regex → Regex
  repeat_of : ℕ → ℕ → Regex → Regex
  -- No text, where the next character is not of the class.
  not_before : (Char → Bool) → Regex

abbrev pub each_rest : (String → List String) → List String → List String
each_rest f [] = []
each_rest f (s ∷ ss) = f s ++ each_rest f ss

-- The greedy repetition: up to n times, longest first; and exactly n times.
abbrev pub at_most : (String → List String) → ℕ → String → List String
at_most f zero s = s ∷ []
at_most f (suc n) s = each_rest (at_most f n) (f s) ++ (s ∷ [])

abbrev pub exactly : (String → List String) → ℕ → String → List String
exactly f zero s = s ∷ []
exactly f (suc n) s = each_rest (exactly f n) (f s)

abbrev pub after_char : (Char → Bool) → String → List String
after_char p String.[] = []
after_char p (String.◌∷◌ c s) = if p c then s ∷ [] else []

abbrev pub starts_in : (Char → Bool) → String → Bool
starts_in p String.[] = false
starts_in p (String.◌∷◌ c s) = p c

-- What is left of the text after each match at its start, the preferred match first.
unfoldable pub matches : Regex → String → List String
matches (Regex.char_in p) s = after_char p s
matches (Regex.not_before p) s = if starts_in p s then [] else s ∷ []
matches (Regex.seq a b) s = each_rest (matches b) (matches a s)
matches (Regex.alt a b) s = matches a s ++ matches b s
matches (Regex.repeat_of least more r) s =
    each_rest (at_most (matches r) more) (exactly (matches r) least s)

abbrev pub any_left : List String → Bool
any_left [] = false
any_left (s ∷ ss) = true

-- `r.test(s)`
unfoldable pub test : Regex → String → Bool
unfolding matches
test r String.[] = any_left (matches r "")
test r (String.◌∷◌ c s) = let later = test r s in any_left (matches r (String.◌∷◌ c s)) || later

abbrev pub first_left : List String → Option String
first_left [] = none
first_left (s ∷ ss) = some s

-- `s.match(r).length` for a global r that matches no empty text: the search goes on behind a match.
-- The fuel is the length of the text, which shrinks in each step.
unfoldable pub count_matches : Regex → ℕ → String → ℕ
unfolding matches
count_matches r zero s = 0
count_matches r (suc fuel) String.[] = 0
count_matches r (suc fuel) (String.◌∷◌ c s) = elim (first_left (matches r (String.◌∷◌ c s))) [
  | none ↦ count_matches r fuel s
  | some rest ↦ 1 + count_matches r fuel rest
]

abbrev pub count_all : Regex → String → ℕ
count_all r s = count_matches r (js_length s) s

unfoldable pub starts_with : String → String → Bool
starts_with String.[] s = true
starts_with (String.◌∷◌ c t) String.[] = false
starts_with (String.◌∷◌ c t) (String.◌∷◌ d s) = code c == code d && starts_with t s

-- `s.includes(t)`
unfoldable pub includes : String → String → Bool
unfolding starts_with
includes String.[] t = str_eq t ""
includes (String.◌∷◌ c s) t = let later = includes s t in starts_with t (String.◌∷◌ c s) || later

abbrev pub is_decimal : Char → Bool
is_decimal c = leb b'0' (code c) && leb (code c) b'9'

abbrev pub is_small : Char → Bool
is_small c = leb b'a' (code c) && leb (code c) b'z'

abbrev pub is_alnum : Char → Bool
is_alnum c = is_decimal c || is_small c

abbrev pub is : Char → Char → Bool
is c d = code c == code d

abbrev pub lit : Char → Regex
lit c = Regex.char_in (is c)

-- `r{least,most}`
abbrev pub between : ℕ → ℕ → Regex → Regex
between least most r = Regex.repeat_of least (most - least) r

infixr 40 ◌⋯◌
abbrev pub ◌⋯◌ : Regex → Regex → Regex
a ⋯ b = Regex.seq a b

abbrev pub is_one : String → Char → Bool
is_one String.[] c = false
is_one (String.◌∷◌ d s) c = is d c || is_one s c

-- /[a-z0-9]{1,64}(?:[._%+\-][a-z0-9]{1,64}){0,10}@[a-z0-9]{1,253}(?:[.\-][a-z0-9]{1,63}){0,10}\.[a-z]{2,6}/
abbrev pub email_regex : Regex
email_regex =
    between 1 64 (Regex.char_in is_alnum)
    ⋯ between 0 10 (Regex.char_in (is_one "._%+-") ⋯ between 1 64 (Regex.char_in is_alnum))
    ⋯ lit "@"
    ⋯ between 1 253 (Regex.char_in is_alnum)
    ⋯ between 0 10 (Regex.char_in (is_one ".-") ⋯ between 1 63 (Regex.char_in is_alnum))
    ⋯ lit "."
    ⋯ between 2 6 (Regex.char_in is_small)

-- /(\+?\d[\d\s\-()]{7,20}\d)/
abbrev pub phone_regex : Regex
phone_regex =
    between 0 1 (lit "+")
    ⋯ Regex.char_in is_decimal
    ⋯ between 7 20 (Regex.char_in (λ c. is_decimal c || is_space c || is_one "-()" c))
    ⋯ Regex.char_in is_decimal

abbrev pub word_of : String → Regex → Regex
word_of String.[] r = r
word_of (String.◌∷◌ c s) r = lit c ⋯ word_of s r

abbrev optional_s : String → Char → Regex
optional_s String.[] c = between 0 1 (lit c)
optional_s (String.◌∷◌ d s) c = lit d ⋯ optional_s s c

-- /\d{1,10}%|\$\d{1,10}|\d{1,6} ?(?:years?|months?|clients?|users?|projects?)/g
abbrev pub quantifier_regex : Regex
quantifier_regex = Regex.alt (between 1 10 (Regex.char_in is_decimal) ⋯ lit "%") (
    Regex.alt (lit "$" ⋯ between 1 10 (Regex.char_in is_decimal)) (
      between 1 6 (Regex.char_in is_decimal)
      ⋯ between 0 1 (lit " ")
      ⋯ Regex.alt (optional_s "year" "s") (
          Regex.alt (optional_s "month" "s") (
            Regex.alt (optional_s "client" "s")
              (Regex.alt (optional_s "user" "s") (optional_s "project" "s"))))))

-- /\d{1,10}%|\$[\d,]{1,15}|\d{1,10}x|\d{1,10}\+/g
abbrev pub metric_regex : Regex
metric_regex = Regex.alt (between 1 10 (Regex.char_in is_decimal) ⋯ lit "%") (
    Regex.alt (lit "$" ⋯ between 1 15 (Regex.char_in (λ c. is_decimal c || is "," c))) (
      Regex.alt (between 1 10 (Regex.char_in is_decimal) ⋯ lit "x")
        (between 1 10 (Regex.char_in is_decimal) ⋯ lit "+")))

email_test : test email_regex "me: ann.x@mail.io" ≡ true
unfolding test
email_test = refl

metric_test : count_all metric_regex "up 20%, $5,000 and 3x" ≡ 3
unfolding count_matches
metric_test = refl
