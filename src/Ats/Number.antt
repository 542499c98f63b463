-- ===== src/Ats/Number.antt =====
-- The numbers of the language, as the scores use them: double precision floats, which are not written
-- out here. The laws hold for those that are finite and not negative, which all of these are, as each
-- operation rounds its exact result to the nearest double.
use prismacv_backend.Shared.{ℕ, ◌+◌, ◌*◌, ◌≤◌, ◌<◌, ◌≡◌, Bool}

-- Number.MAX_SAFE_INTEGER: the whole numbers up to it are exact.
abbrev pub max_safe : ℕ
max_safe = 9007199254740991

pub record Double : Type 1 where
  pub Num : Type 0
  pub of : ℕ → Num
  pub add : Num → Num → Num
  pub times : Num → Num → Num
  pub over : Num → Num → Num
  -- The literals 0.4, 0.3, 0.15 and 0.02.
  pub d04 : Num
  pub d03 : Num
  pub d015 : Num
  pub d002 : Num
  pub less : Num → Num → Bool
  -- `Math.round`, of a number that is not negative
  pub round : Num → ℕ
  pub IsBelow : Num → Num → Type 0
  pub of-IsBelow : (m n : ℕ) → m ≤ n → IsBelow (of m) (of n)
  pub IsBelow-trans : (a b c : Num) → IsBelow a b → IsBelow b c → IsBelow a c
  pub add-IsBelow : (a b c d : Num) → IsBelow a b → IsBelow c d → IsBelow (add a c) (add b d)
  pub times-IsBelow-one :
      (a : Num) (n : ℕ) → n ≤ max_safe → IsBelow a (of 1) → IsBelow (times a (of n)) (of n)
  pub times-d04-IsBelow : (a b : Num) → IsBelow a b → IsBelow (times a d04) (times b d04)
  pub times-d03-IsBelow : (a b : Num) → IsBelow a b → IsBelow (times a d03) (times b d03)
  pub times-d015-IsBelow : (a b : Num) → IsBelow a b → IsBelow (times a d015) (times b d015)
  pub over-IsBelow :
      (a b : Num) (n : ℕ) → 0 < n → IsBelow a b → IsBelow (over a (of n)) (over b (of n))
  pub round-IsBelow : (a : Num) (n : ℕ) → n ≤ max_safe → IsBelow a (of n) → round a ≤ n
  -- Exact results.
  pub over-of : (m n : ℕ) → 0 < n → m * n ≤ max_safe → over (of (m * n)) (of n) ≡ of m
  pub over-self : (n : ℕ) → 0 < n → over (of n) (of n) ≡ of 1
  pub add-of : (m n : ℕ) → m + n ≤ max_safe → add (of m) (of n) ≡ of (m + n)
  pub times-d04 : times (of 100) d04 ≡ of 40
  pub times-d03 : times (of 100) d03 ≡ of 30
  pub times-d015 : times (of 100) d015 ≡ of 15
