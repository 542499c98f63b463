-- ===== src/Cv/Slug/Laws.antt =====
-- The form of a slug.
use Prim.Native.Char.{Char, code}
use prismacv_backend.Shared.{
  ℕ, zero, suc, ◌-◌, ◌<◌, ◌≡◌, inl, inr, refl, subst, String, Bool, true, false, not, ◌&&◌, ◌||◌,
  if◌then◌else◌, ◌==◌, str_eq, str_eq-true, arith, Bool-cases,
}
use prismacv_backend.Shared.Text.{
  is_space, trim, trim_start, trim_end, to_lower, to_lower_case, char_or,
}
use prismacv_backend.Cv.Slug.{
  is_digit, is_lower, is_upper, is_hyphen, keep_word, join_runs, is_gap, strip_first, strip_last,
  slug_of, generate_slug,
}

-- Every character of the text passes the test.
abbrev pub all : (Char → Bool) → String → Bool
all p String.[] = true
all p (String.◌∷◌ c s) = p c && all p s

-- A character of a slug that is not a hyphen.
abbrev pub is_plain : Char → Bool
is_plain c = is_digit c || is_lower c

-- No hyphen follows another; the flag says that a hyphen came before.
abbrev pub is_single : Bool → String → Bool
is_single after String.[] = true
is_single after (String.◌∷◌ c s) =
    if is_hyphen c then not after && is_single true s else is_plain c && is_single false s

-- Letters, digits and single hyphens, which stand between two others; the text does not end after
-- a hyphen. A slug is such a text from the start, as if a hyphen came before.
abbrev pub is_tidy : Bool → String → Bool
is_tidy after String.[] = not after
is_tidy after (String.◌∷◌ c s) =
    if is_hyphen c then not after && is_tidy true s else is_plain c && is_tidy false s

abbrev letter : Char → ℕ → Char
letter c i = char_or c "abcdefghijklmnopqrstuvwxyz" i

abbrev all_below : (ℕ → Bool) → ℕ → Bool
all_below p zero = true
all_below p (suc n) = p n && all_below p n

all_below_lem : (p : ℕ → Bool) (n i : ℕ) → all_below p n ≡ true → i < n → p i ≡ true
all_below_lem p zero i h l = absurd (omega (arith, l))
all_below_lem p (suc n) i h l = elim (Bool-cases (i == n)) [
  | inl e ↦ ground (arith, h, e)
  | inr e ↦ all_below_lem p n i (ground (arith, h)) (ground (arith, e, l))
]

letter_lower : (c : Char) (i : ℕ) → i < 26 → is_lower (letter c i) ≡ true
letter_lower c i l = all_below_lem (λ i. is_lower (letter c i)) 26 i refl l

to_lower_upper : (c : Char) → not (is_upper (to_lower c)) ≡ true
unfolding to_lower
to_lower_upper c = elim (Bool-cases (is_upper c)) [
  | inl e ↦ ground (arith, e, letter_lower c (code c - b'A'))
  | inr e ↦ ground (arith, e)
]

to_lower_case-all : (s : String) → all (λ c. not (is_upper c)) (to_lower_case s) ≡ true
unfolding to_lower_case
to_lower_case-all String.[] = refl
to_lower_case-all (String.◌∷◌ c s) = ground (arith, to_lower_upper c, to_lower_case-all s)

module _ (p : Char → Bool) where
  trim_start-all : (s : String) → all p s ≡ true → all p (trim_start s) ≡ true
  unfolding trim_start
  trim_start-all String.[] h = refl
  trim_start-all (String.◌∷◌ c s) h = ground (arith, h, trim_start-all s)

  trim_end-all : (s : String) → all p s ≡ true → all p (trim_end s) ≡ true
  unfolding trim_end
  trim_end-all String.[] h = refl
  trim_end-all (String.◌∷◌ c s) h = elim (Bool-cases (str_eq (trim_end s) "" && is_space c)) [
    | inl e ↦ rw e refl
    | inr e ↦ rw e (ground (arith, h, trim_end-all s))
  ]

  trim-all : (s : String) → all p s ≡ true → all p (trim s) ≡ true
  unfolding trim
  trim-all s h = trim_end-all (trim_start s) (trim_start-all s h)

keep_word-all :
    (s : String)
    → all (λ c. not (is_upper c)) s ≡ true
    → all (λ c. is_plain c || is_gap c || is_hyphen c) (keep_word s) ≡ true
unfolding keep_word
keep_word-all String.[] h = refl
keep_word-all (String.◌∷◌ c s) h = ground (arith, h, keep_word-all s)

join_gaps-all :
    (s : String) (inside : Bool)
    → all (λ c. is_plain c || is_gap c || is_hyphen c) s ≡ true
    → all (λ c. is_plain c || is_hyphen c) (join_runs is_gap inside s) ≡ true
unfolding join_runs
join_gaps-all String.[] inside h = refl
join_gaps-all (String.◌∷◌ c s) inside h = elim (Bool-cases (is_gap c)) [
  | inl e ↦ rw e (elim (Bool-cases inside) [
    | inl i ↦ rw i (ground (arith, h, join_gaps-all s true))
    | inr o ↦ rw o (ground (arith, h, join_gaps-all s true))
  ])
  | inr e ↦ rw e (ground (arith, h, e, join_gaps-all s false))
]

join_hyphens-single :
    (s : String) (inside : Bool)
    → all (λ c. is_plain c || is_hyphen c) s ≡ true
    → is_single inside (join_runs is_hyphen inside s) ≡ true
unfolding join_runs
join_hyphens-single String.[] inside h = refl
join_hyphens-single (String.◌∷◌ c s) inside h =
    let after = join_hyphens-single s true in
    let behind = join_hyphens-single s false in
    elim (Bool-cases (is_hyphen c)) [
      | inl e ↦ rw e (elim (Bool-cases inside) [
        | inl i ↦ rw i (ground (arith, h, after))
        | inr o ↦ rw o (ground (arith, h, after))
      ])
      | inr e ↦ rw (e, e) (ground (arith, h, e, behind))
    ]

strip_first-single : (s : String) → is_single false s ≡ true → is_single true (strip_first s) ≡ true
unfolding strip_first
strip_first-single String.[] h = refl
strip_first-single (String.◌∷◌ c s) h = ground (arith, h)

strip_last-tidy :
    (s : String) (after : Bool)
    → is_single after s ≡ true
    → (not after || not (str_eq s "")) ≡ true
    → is_tidy after (strip_last s) ≡ true
unfolding strip_last
strip_last-tidy String.[] after h g = ground (arith, h, g)
strip_last-tidy (String.◌∷◌ c s) after h g = elim (Bool-cases (str_eq s "" && is_hyphen c)) [
  | inl e ↦ rw e (ground (arith, h, e))
  | inr e ↦ rw e (ground (arith, h, e, strip_last-tidy s true, strip_last-tidy s false))
]

strip_last-nonempty : (s : String) → str_eq (strip_last s) "" ≡ false → not (str_eq s "") ≡ true
unfolding strip_last
strip_last-nonempty s h = elim (Bool-cases (str_eq s "")) [
  | inl e ↦
      absurd (empty_again (subst (λ t. str_eq (strip_last t) "" ≡ false) (str_eq-true s "" e) h))
  | inr e ↦ rw e refl
]
  where
    empty_again : true ≡ false → ⊥
    empty_again e = ground (arith, e)

slug_of-tidy :
    (title : String) → str_eq (slug_of title) "" ≡ false → is_tidy true (slug_of title) ≡ true
unfolding slug_of
slug_of-tidy title h =
    let joined = join_runs is_gap false (keep_word (trim (to_lower_case title))) in
    let hyphens = join_runs is_hyphen false joined in
    let plain = join_gaps-all (keep_word (trim (to_lower_case title))) false (
      keep_word-all (trim (to_lower_case title))
        (trim-all (λ c. not (is_upper c)) (to_lower_case title) (to_lower_case-all title))) in
    strip_last-tidy (strip_first hyphens) true
      (strip_first-single hyphens (join_hyphens-single joined false plain))
      (strip_last-nonempty (strip_first hyphens) h)

pub generate_slug-tidy : (title : String) → is_tidy true (generate_slug title) ≡ true
unfolding generate_slug
generate_slug-tidy title = elim (Bool-cases (str_eq (slug_of title) "")) [
  | inl e ↦ rw e refl
  | inr e ↦ rw e (slug_of-tidy title e)
]
