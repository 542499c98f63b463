-- ===== src/Shared/Sort.antt =====
-- Lists in the order of a weight.
use Prim.Native.Nat.{ℕ, ◌≤◌}
use mathlib.Core.Path.{◌≡◌}
use mathlib.Core.Logic.{◌⊎◌, inl, inr}
use mathlib.Core.List.{List, [], ◌∷◌}
use native.Mathlib.Omega.{arith}
use prismacv_backend.Shared.Tests.{leb, if◌then◌else◌, Bool-cases}
use prismacv_backend.Shared.Lists.{IsIn}

module _ {A : Type 0} (weight : A → ℕ) where
  -- No element weighs more than one behind it.
  abbrev pub IsAscending : List A → Type 0
  IsAscending [] = Unit
  IsAscending (x ∷ xs) = ((y : A) → IsIn y xs → weight x ≤ weight y) × IsAscending xs

  abbrev pub insert_by : A → List A → List A
  insert_by x [] = x ∷ []
  insert_by x (y ∷ ys) =
      let rest = insert_by x ys in if leb (weight x) (weight y) then x ∷ y ∷ ys else y ∷ rest

  abbrev pub sort_by : List A → List A
  sort_by [] = []
  sort_by (x ∷ xs) = insert_by x (sort_by xs)

  IsIn-insert_by : (x y : A) (ys : List A) → IsIn y (insert_by x ys) → (y ≡ x) ⊎ IsIn y ys
  IsIn-insert_by x y [] h = h
  IsIn-insert_by x y (z ∷ ys) h = ground (arith, h, IsIn-insert_by x y ys)

  insert_by-IsIn : (x y : A) (ys : List A) → (y ≡ x) ⊎ IsIn y ys → IsIn y (insert_by x ys)
  insert_by-IsIn x y [] h = h
  insert_by-IsIn x y (z ∷ ys) h = ground (arith, h, insert_by-IsIn x y ys)

  pub IsIn-sort_by : (y : A) (xs : List A) → IsIn y (sort_by xs) → IsIn y xs
  IsIn-sort_by y [] h = h
  IsIn-sort_by y (x ∷ xs) h = elim (IsIn-insert_by x y (sort_by xs) h) [
    | inl e ↦ inl e
    | inr i ↦ inr (IsIn-sort_by y xs i)
  ]

  pub sort_by-IsIn : (y : A) (xs : List A) → IsIn y xs → IsIn y (sort_by xs)
  sort_by-IsIn y [] h = h
  sort_by-IsIn y (x ∷ xs) (inl e) = insert_by-IsIn x y (sort_by xs) (inl e)
  sort_by-IsIn y (x ∷ xs) (inr i) = insert_by-IsIn x y (sort_by xs) (inr (sort_by-IsIn y xs i))

  insert_by-IsAscending : (x : A) (ys : List A) → IsAscending ys → IsAscending (insert_by x ys)
  insert_by-IsAscending x [] h = (λ y i. absurd i, tt)
  insert_by-IsAscending x (y ∷ ys) (first, rest) = elim (Bool-cases (leb (weight x) (weight y))) [
    | inl low ↦ rw low (
      λ z i. elim i [ inl e ↦ rw e (ground (arith, low)) | inr j ↦ ground (arith, low, first z j) ],
      (first, rest),
    )
    | inr high ↦ rw high (
      λ z i. elim (IsIn-insert_by x z ys i) [
        | inl e ↦ rw e (ground (arith, high))
        | inr j ↦ first z j
      ],
      insert_by-IsAscending x ys rest,
    )
  ]

  pub sort_by-IsAscending : (xs : List A) → IsAscending (sort_by xs)
  sort_by-IsAscending [] = tt
  sort_by-IsAscending (x ∷ xs) = insert_by-IsAscending x (sort_by xs) (sort_by-IsAscending xs)
