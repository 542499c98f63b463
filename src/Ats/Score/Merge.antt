-- ===== src/Ats/Score/Merge.antt =====
-- The suggestions of the heuristics and those of a language model, as mergeSuggestions of
-- src/modules/ats/ats.service.ts puts them together.
use prismacv_backend.Shared.{
  ◌+◌, ◌≤◌, ◌<◌, ◌≡◌, ◌≢◌, refl, sym, subst, String, Bool, true, false, List, [], ◌∷◌, ◌++◌, ◌||◌,
  eq_refl, str_eq-false, length, leb, str_eq, is_one_of, arith, inl, inr, Bool-cases,
}
use prismacv_backend.Shared.Text.{trim}
use prismacv_backend.Ats.Score.{add_unique, merge_suggestions}

-- No element equals a later one.
abbrev pub IsDistinct : List String → Type 0
IsDistinct [] = Unit
IsDistinct (s ∷ ss) = (is_one_of s ss ≡ false) × IsDistinct ss

-- Every element is a suggestion without the spaces around it, and not empty.
abbrev pub IsTaken : List String → List String → Type 0
IsTaken all [] = Unit
IsTaken all (s ∷ ss) = (str_eq s "" ≡ false) × (is_one_of s all ≡ true) × IsTaken all ss

abbrev pub trim_all : List String → List String
trim_all [] = []
trim_all (s ∷ ss) = trim s ∷ trim_all ss

length-snoc : (ss : List String) (t : String) → length (ss ++ (t ∷ [])) ≡ length ss + 1
length-snoc [] t = omega arith
length-snoc (s ∷ ss) t = omega (arith, length-snoc ss t)

neither : (a b : Bool) → (a || b) ≡ false → (a ≡ false) × (b ≡ false)
neither true b h = absurd (ground (arith, h))
neither false b h = (refl, h)

is_one_of-snoc :
    (s t : String) (ss : List String)
    → is_one_of s ss ≡ false
    → str_eq t s ≡ false
    → is_one_of s (ss ++ (t ∷ [])) ≡ false
is_one_of-snoc s t [] h e = rw e refl
is_one_of-snoc s t (r ∷ ss) h e =
    let (f, i) = neither (str_eq r s) (is_one_of s ss) h in rw f (is_one_of-snoc s t ss i e)

later_differs : (s t : String) → str_eq s t ≡ false → s ≢ t
later_differs s t h p = absurd (ground (arith, h, subst (λ u. str_eq s u ≡ true) p (eq_refl s)))

-- A member that is added is another one.
add-IsDistinct :
    (ss : List String) (t : String)
    → IsDistinct ss
    → is_one_of t ss ≡ false
    → IsDistinct (ss ++ (t ∷ []))
add-IsDistinct [] t h new = (refl, tt)
add-IsDistinct (s ∷ ss) t (h, hs) new =
    let (f, i) = neither (str_eq s t) (is_one_of t ss) new in
    (
      is_one_of-snoc s t ss h (str_eq-false t s (λ p. later_differs s t f (sym p))),
      add-IsDistinct ss t hs i,
    )

add-IsTaken :
    (all ss : List String) (t : String)
    → IsTaken all ss
    → str_eq t "" ≡ false
    → is_one_of t all ≡ true
    → IsTaken all (ss ++ (t ∷ []))
add-IsTaken all [] t h filled there = (filled, there, tt)
add-IsTaken all (s ∷ ss) t (e, i, hs) filled there = (e, i, add-IsTaken all ss t hs filled there)

-- What the loop keeps of the set that it fills.
abbrev IsMerged : List String → List String → Type 0
IsMerged all ss = (length ss ≤ 10) × IsDistinct ss × IsTaken all ss

grow :
    (all unique : List String) (t : String)
    → IsMerged all unique
    → length unique < 10
    → str_eq t "" ≡ false
    → is_one_of t unique ≡ false
    → is_one_of t all ≡ true
    → IsMerged all (unique ++ (t ∷ []))
grow all unique t (n, d, k) few e f there = (
  omega (arith, length-snoc unique t, few),
  add-IsDistinct unique t d f,
  add-IsTaken all unique t k e there,
)

is_one_of-later :
    (t s : String) (ss : List String) → is_one_of t ss ≡ true → is_one_of t (s ∷ ss) ≡ true
is_one_of-later t s ss h = elim (Bool-cases (str_eq s t)) [ inl e ↦ rw e refl | inr e ↦ rw e h ]

is_one_of-first : (s : String) (ss : List String) → is_one_of s (s ∷ ss) ≡ true
is_one_of-first s ss = rw (eq_refl s) refl

add_unique-IsMerged :
    (all unique ss : List String)
    → IsMerged all unique
    → length unique < 10
    → ((t : String) → is_one_of t (trim_all ss) ≡ true → is_one_of t all ≡ true)
    → IsMerged all (add_unique unique ss)
unfolding add_unique
add_unique-IsMerged all unique [] h few within = h
add_unique-IsMerged all unique (s ∷ ss) (n, d, k) few within =
    let later = λ (t : String) (e : is_one_of t (trim_all ss) ≡ true).
      within t (is_one_of-later t (trim s) (trim_all ss) e) in
    let same = add_unique-IsMerged all unique ss (n, d, k) few later in
    elim (Bool-cases (str_eq (trim s) "")) [
      | inl e ↦ rw e same
      | inr e ↦ rw e (elim (Bool-cases (is_one_of (trim s) unique)) [
        | inl f ↦ rw f (elim (Bool-cases (leb 10 (length unique))) [
          | inl g ↦ rw g (n, d, k)
          | inr g ↦ rw g same
        ])
        | inr f ↦ rw f (
            let grown =
              grow all unique (trim s) (n, d, k) few e f
                (within (trim s) (is_one_of-first (trim s) (trim_all ss))) in
            elim (Bool-cases (leb 10 (length (unique ++ (trim s ∷ []))))) [
              | inl g ↦ rw g grown
              | inr g ↦ rw g (
                  add_unique-IsMerged all (unique ++ (trim s ∷ [])) ss grown (ground (arith, g))
                    later)
            ])
      ])
    ]

-- The merged suggestions are at most ten, each one once, none of them empty, and each is one of the
-- heuristics' or of the model's without the spaces around it.
pub merge_suggestions_sound :
    (heuristic llm : List String)
    → (length (merge_suggestions heuristic llm) ≤ 10)
      × IsDistinct (merge_suggestions heuristic llm)
      × IsTaken (trim_all (heuristic ++ llm)) (merge_suggestions heuristic llm)
unfolding merge_suggestions
merge_suggestions_sound heuristic llm =
    add_unique-IsMerged (trim_all (heuristic ++ llm)) [] (heuristic ++ llm) (omega arith, tt, tt)
      (omega arith) (λ t e. e)
