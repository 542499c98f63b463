-- ===== src/Pagination/Laws.antt =====
-- How many items the pages show, and when there is a next one.
use native.Mathlib.Nat.{le-div_iff_mul-le, lt-div-mul-add}
use prismacv_backend.Shared.{
  ℕ, zero, suc, ◌+◌, ◌-◌, ◌*◌, ◌≤◌, ◌<◌, ◌≡◌, sym, ap, ◌∙◌, min, ltb, arith, Bool-cases, inl, inr,
}
use prismacv_backend.Pagination.{ceil_div}

suc_times : (n m : ℕ) → suc n * m ≡ m + n * m
suc_times n m = omega arith

zero_times : (m : ℕ) → 0 * m ≡ 0
zero_times m = omega arith

pub page_before : (j m : ℕ) → (suc j - 1) * m ≡ j * m
page_before j m = ap (λ k. k * m) (omega arith)

after_page : (j m : ℕ) → suc j * m ≡ j * m + m
after_page j m = omega arith

pages_cover : (total limit : ℕ) → 1 ≤ limit → total ≤ ceil_div total limit * limit
pages_cover total limit h =
    let fits = lt-div-mul-add {a = total + (limit - 1)} {b = limit} (omega (arith, h)) in
    omega (arith, h, fits)

-- How many of `total` items the j-th page shows, counted from 0, and n pages from it on.
abbrev pub pages_count : ℕ → ℕ → ℕ → ℕ → ℕ
pages_count total limit zero j = 0
pages_count total limit (suc n) j =
    min limit (total - j * limit) + pages_count total limit n (suc j)

pages_count_lem :
    (total limit n j : ℕ) → pages_count total limit n j ≡ min (n * limit) (total - j * limit)
pages_count_lem total limit zero j = omega (arith, zero_times limit)
pages_count_lem total limit (suc n) j =
    omega (arith, pages_count_lem total limit n (suc j), suc_times n limit, after_page j limit)

-- The pages show all items.
pub pages_count_all :
    (total limit : ℕ) → 1 ≤ limit → pages_count total limit (ceil_div total limit) 0 ≡ total
pages_count_all total limit h =
    let n = ceil_div total limit in
    pages_count_lem total limit n 0 ∙ omega (arith, zero_times limit, pages_cover total limit h)

below :
    (page limit total : ℕ)
    → 1 ≤ limit
    → page * limit < total
    → suc page * limit ≤ total + (limit - 1)
below page limit total h l = omega (arith, h, l, after_page page limit)

beyond :
    (page limit total : ℕ)
    → 1 ≤ limit
    → total ≤ page * limit
    → suc page * limit ≤ total + (limit - 1)
    → ⊥
beyond page limit total h l m = omega (arith, h, l, m, after_page page limit)

pub page_after :
    (total limit page : ℕ) → 1 ≤ limit → ltb page (ceil_div total limit) ≡ ltb (page * limit) total
page_after total limit page h =
    let (to, from) =
      le-div_iff_mul-le {k = limit} {x = suc page} {y = total + (limit - 1)} (omega (arith, h)) in
    let next = after_page page limit in
    elim (Bool-cases (ltb (page * limit) total)) [
      | inl e ↦
          let more : suc page ≤ ceil_div total limit =
            from (below page limit total h (ground (arith, e))) in
          ground (arith, e, more)
      | inr e ↦ elim (Bool-cases (ltb page (ceil_div total limit))) [
        | inr f ↦ f ∙ sym e
        | inl f ↦ absurd (beyond page limit total h (ground (arith, e)) (to (ground (arith, f))))
      ]
    ]
