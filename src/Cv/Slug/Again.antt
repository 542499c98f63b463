-- ===== src/Cv/Slug/Again.antt =====
-- A slug is its own slug.
use Prim.Native.Char.{Char}
use text.Mathlib.TextEquality.{Char-path}
use prismacv_backend.Shared.{
  ◌≡◌, refl, ap, ◌∙◌, subst, str_eq-true, String, Bool, true, false, ◌&&◌, ◌||◌, str_eq, arith, inl,
  inr, Bool-cases,
}
use prismacv_backend.Shared.Text.{is_space, trim, trim_start, trim_end, to_lower, to_lower_case}
use prismacv_backend.Cv.Slug.{
  is_hyphen, is_word, keep_word, join_runs, is_gap, strip_first, strip_last, slug_of, generate_slug,
}
use prismacv_backend.Cv.Slug.Laws.{all, is_plain, is_tidy, generate_slug-tidy}

abbrev is_slug_char : Char → Bool
is_slug_char c = is_plain c || is_hyphen c

is_tidy-all : (s : String) (after : Bool) → is_tidy after s ≡ true → all is_slug_char s ≡ true
is_tidy-all String.[] after h = refl
is_tidy-all (String.◌∷◌ c s) after h = elim (Bool-cases (is_hyphen c)) [
  | inl e ↦ ground (arith, h, e, is_tidy-all s true)
  | inr e ↦ ground (arith, h, e, is_tidy-all s false)
]

lower_same : (c : Char) → is_slug_char c ≡ true → to_lower c ≡ c
unfolding to_lower
lower_same c h = ground (arith, h)

-- The text of a first character and a rest, and that of the same rest.
same_tail : (c : Char) (s t : String) → s ≡ t → String.◌∷◌ c s ≡ String.◌∷◌ c t
same_tail c s t e = ap (λ r. String.◌∷◌ c r) e

to_lower_case-same : (s : String) → all is_slug_char s ≡ true → to_lower_case s ≡ s
unfolding to_lower_case
to_lower_case-same String.[] h = refl
to_lower_case-same (String.◌∷◌ c s) h =
    ap (λ d. String.◌∷◌ d (to_lower_case s)) (lower_same c (ground (arith, h)))
    ∙ same_tail c (to_lower_case s) s (to_lower_case-same s (ground (arith, h)))

not_space : (c : Char) → is_slug_char c ≡ true → is_space c ≡ false
not_space c h = ground (arith, h)

trim_start-same : (s : String) → all is_slug_char s ≡ true → trim_start s ≡ s
unfolding trim_start
trim_start-same String.[] h = refl
trim_start-same (String.◌∷◌ c s) h = rw (not_space c (ground (arith, h))) refl

trim_end-same : (s : String) → all is_slug_char s ≡ true → trim_end s ≡ s
unfolding trim_end
trim_end-same String.[] h = refl
trim_end-same (String.◌∷◌ c s) h =
    let behind = trim_end-same s (ground (arith, h)) in
    let space = not_space c (ground (arith, h)) in
    elim (Bool-cases (str_eq (trim_end s) "")) [
      | inl e ↦ rw (e, space) (same_tail c (trim_end s) s behind)
      | inr e ↦ rw e (same_tail c (trim_end s) s behind)
    ]

keep_word-same : (s : String) → all is_slug_char s ≡ true → keep_word s ≡ s
unfolding keep_word
keep_word-same String.[] h = refl
keep_word-same (String.◌∷◌ c s) h =
    let kept : (is_word c || is_space c || is_hyphen c) ≡ true = ground (arith, h) in
    rw kept (same_tail c (keep_word s) s (keep_word-same s (ground (arith, h))))

join_gaps-same : (s : String) → all is_slug_char s ≡ true → join_runs is_gap false s ≡ s
unfolding join_runs
join_gaps-same String.[] h = refl
join_gaps-same (String.◌∷◌ c s) h =
    let other : is_gap c ≡ false = ground (arith, h) in
    rw other (same_tail c (join_runs is_gap false s) s (join_gaps-same s (ground (arith, h))))

hyphen_only : (c : Char) → is_hyphen c ≡ true → "-" ≡ c
hyphen_only c h = Char-path "-" c (ground (arith, h))

join_hyphens-same :
    (s : String) (after : Bool) → is_tidy after s ≡ true → join_runs is_hyphen after s ≡ s
unfolding join_runs
join_hyphens-same String.[] after h = refl
join_hyphens-same (String.◌∷◌ c s) after h = elim (Bool-cases (is_hyphen c)) [
  | inl e ↦
      let first : after ≡ false = ground (arith, h, e) in
      rw (e, first)
        (ap (λ d. String.◌∷◌ d (join_runs is_hyphen true s)) (hyphen_only c e)
          ∙ same_tail c (join_runs is_hyphen true s) s
              (join_hyphens-same s true (ground (arith, h, e))))
  | inr e ↦ rw e (
      same_tail c (join_runs is_hyphen false s) s
        (join_hyphens-same s false (ground (arith, h, e))))
]

is_tidy-first : (s : String) → is_tidy true s ≡ true → is_tidy false s ≡ true
is_tidy-first String.[] h = refl
is_tidy-first (String.◌∷◌ c s) h = ground (arith, h)

strip_first-same : (s : String) → is_tidy true s ≡ true → strip_first s ≡ s
unfolding strip_first
strip_first-same String.[] h = refl
strip_first-same (String.◌∷◌ c s) h =
    let other : is_hyphen c ≡ false = ground (arith, h) in rw other refl

tidy_nonempty : (s : String) → is_tidy true s ≡ true → str_eq s "" ≡ false
tidy_nonempty s h = elim (Bool-cases (str_eq s "")) [
  | inl e ↦ absurd (false≢true (subst (λ t. is_tidy true t ≡ true) (str_eq-true s "" e) h))
  | inr e ↦ e
]
  where
    false≢true : false ≡ true → ⊥
    false≢true e = ground (arith, e)

strip_last-same : (s : String) (after : Bool) → is_tidy after s ≡ true → strip_last s ≡ s
unfolding strip_last
strip_last-same String.[] after h = refl
strip_last-same (String.◌∷◌ c s) after h = elim (Bool-cases (is_hyphen c)) [
  | inl e ↦
      let more : str_eq s "" ≡ false = tidy_nonempty s (ground (arith, h, e)) in
      rw more (same_tail c (strip_last s) s (strip_last-same s true (ground (arith, h, e))))
  | inr e ↦
      let stays : (str_eq s "" && is_hyphen c) ≡ false = ground (arith, e) in
      rw stays (same_tail c (strip_last s) s (strip_last-same s false (ground (arith, h, e))))
]

slug_of-same : (s : String) → is_tidy true s ≡ true → slug_of s ≡ s
unfolding slug_of trim
slug_of-same s h =
    let plain = is_tidy-all s true h in
    let lowered = to_lower_case-same s plain in
    let trimmed = trim_start-same s plain in
    rw
      (
        lowered,
        trimmed,
        trim_end-same s plain,
        keep_word-same s plain,
        join_gaps-same s plain,
        join_hyphens-same s false (is_tidy-first s h),
        strip_first-same s h,
      )
      (strip_last-same s true h)

generate_slug-same : (s : String) → is_tidy true s ≡ true → generate_slug s ≡ s
unfolding generate_slug
generate_slug-same s h = rw (slug_of-same s h, tidy_nonempty s h) refl

generate_slug-generate_slug :
    (title : String) → generate_slug (generate_slug title) ≡ generate_slug title
generate_slug-generate_slug title =
    generate_slug-same (generate_slug title) (generate_slug-tidy title)

-- A slug is not empty, has lower-case letters of ASCII, digits and hyphens alone, neither starts nor
-- ends with a hyphen, and has no two hyphens in a row; and the slug of a slug is that slug.
pub generate_slug_lem :
    (title : String)
    → (is_tidy true (generate_slug title) ≡ true)
      × (generate_slug (generate_slug title) ≡ generate_slug title)
generate_slug_lem title = (generate_slug-tidy title, generate_slug-generate_slug title)
