-- ===== src/Shared/Lists.antt =====
-- Lists measured by native numbers, and predicates over lists.
use Prim.Native.Nat.{ℕ, zero, suc, ◌+◌, ◌-◌, min}
use mathlib.Core.Path.{◌≡◌, refl, ap, ◌∙◌}
use mathlib.Core.Logic.{◌⊎◌, inl, inr}
use mathlib.Core.List.{List, [], ◌∷◌, ◌++◌}
use native.Mathlib.Omega.{arith}

pub zero_plus : (n : ℕ) → 0 + n ≡ n
zero_plus n = omega arith

suc_plus : (m n : ℕ) → suc m + n ≡ suc (m + n)
suc_plus m n = omega arith

module _ {ℓ} {A : Type ℓ} where
  abbrev pub length : List A → ℕ
  length [] = 0
  length (x ∷ xs) = suc (length xs)

  abbrev pub take : ℕ → List A → List A
  take zero xs = []
  take (suc n) [] = []
  take (suc n) (x ∷ xs) = x ∷ take n xs

  abbrev pub drop : ℕ → List A → List A
  drop zero xs = xs
  drop (suc n) [] = []
  drop (suc n) (x ∷ xs) = drop n xs

  pub length-append : (xs ys : List A) → length (xs ++ ys) ≡ length xs + length ys
  length-append [] ys = omega arith
  length-append (x ∷ xs) ys = omega (arith, length-append xs ys)

  take-append : (xs ys : List A) → take (length xs) (xs ++ ys) ≡ xs
  take-append [] ys = refl
  take-append (x ∷ xs) ys = ap (◌∷◌ x) (take-append xs ys)

  pub drop-append : (xs ys : List A) → drop (length xs) (xs ++ ys) ≡ ys
  drop-append [] ys = refl
  drop-append (x ∷ xs) ys = drop-append xs ys

  -- A middle part, cut out by its two ends.
  pub drop-take-append :
      (xs ys zs : List A) → drop (length xs) (take (length xs + length ys) (xs ++ (ys ++ zs))) ≡ ys
  drop-take-append [] ys zs =
      ap (λ n. take n (ys ++ zs)) (zero_plus (length ys)) ∙ take-append ys zs
  drop-take-append (x ∷ xs) ys zs =
      ap (λ n. drop (suc (length xs)) (take n (x ∷ (xs ++ (ys ++ zs)))))
        (suc_plus (length xs) (length ys))
      ∙ drop-take-append xs ys zs

-- The element is one of the list.
abbrev pub IsIn : {A : Type 0} → A → List A → Type 0
IsIn a [] = ⊥
IsIn a (x ∷ xs) = (a ≡ x) ⊎ IsIn a xs

pub IsIn-take : {A : Type 0} (n : ℕ) (a : A) (xs : List A) → IsIn a (take n xs) → IsIn a xs
IsIn-take zero a xs i = elim i [ ]
IsIn-take (suc n) a [] i = i
IsIn-take (suc n) a (x ∷ xs) (inl e) = inl e
IsIn-take (suc n) a (x ∷ xs) (inr i) = inr (IsIn-take n a xs i)

pub IsIn-drop : {A : Type 0} (n : ℕ) (a : A) (xs : List A) → IsIn a (drop n xs) → IsIn a xs
IsIn-drop zero a xs i = i
IsIn-drop (suc n) a [] i = i
IsIn-drop (suc n) a (x ∷ xs) i = inr (IsIn-drop n a xs i)

pub length-take-drop :
    {A : Type 0} (n m : ℕ) (xs : List A) → length (take n (drop m xs)) ≡ min n (length xs - m)
length-take-drop zero m xs = omega arith
length-take-drop (suc n) zero [] = omega arith
length-take-drop (suc n) zero (x ∷ xs) = omega (arith, length-take-drop n zero xs)
length-take-drop (suc n) (suc m) [] = omega arith
length-take-drop (suc n) (suc m) (x ∷ xs) = omega (arith, length-take-drop (suc n) m xs)
