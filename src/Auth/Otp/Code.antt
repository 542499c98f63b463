-- ===== src/Auth/Otp/Code.antt =====
-- src/modules/auth/otp.service.ts: `generateOtpCode`, by rejection of the draws that would make
-- some codes likelier than others.
use prismacv_backend.Shared.{
  ℕ, zero, suc, ◌+◌, ◌-◌, ◌*◌, ◌/◌, ◌%◌, ◌≤◌, ◌<◌, ◌≡◌, Option, none, some, if◌then◌else◌, leb,
  arith, ap, zero_plus, inl, inr, Bool-cases,
}

abbrev pub code_count : ℕ
code_count = 900000

abbrev pub range : ℕ
range = 16777216

abbrev pub limit : ℕ
limit = range / code_count * code_count

-- `(randomNumber % MAX) + 100000`
abbrev pub code_of : ℕ → ℕ
code_of random = random % code_count + 100000

-- The loop over the draws `random 0`, `random 1`, …; it runs on while a draw is at least the limit.
-- `none` means that the fuel is used up and the loop still runs.
draw_below : ℕ → (ℕ → ℕ) → ℕ → Option ℕ
draw_below zero random i = none
draw_below (suc fuel) random i =
    let next = draw_below fuel random (suc i) in
    if leb limit (random i) then next else some (code_of (random i))

unfoldable pub generate_otp_code : ℕ → (ℕ → ℕ) → Option ℕ
unfolding draw_below
generate_otp_code fuel random = draw_below fuel random 0

draw_below_bounds :
    (fuel : ℕ) (random : ℕ → ℕ) (i code : ℕ)
    → draw_below fuel random i ≡ some code
    → (100000 ≤ code) × (code ≤ 999999)
unfolding draw_below
draw_below_bounds zero random i code h = ground arith
draw_below_bounds (suc fuel) random i code h =
    ground (arith, draw_below_bounds fuel random (suc i) code)

plus_zero : (i : ℕ) → i + 0 ≡ i
plus_zero i = omega arith

plus_suc : (i k : ℕ) → i + suc k ≡ suc i + k
plus_suc i k = omega arith

draw_below_total :
    (fuel : ℕ) (random : ℕ → ℕ) (i k : ℕ)
    → k < fuel
    → random (i + k) < limit
    → (code : ℕ) × (draw_below fuel random i ≡ some code)
unfolding draw_below
draw_below_total zero random i k h r = elim h [ ]
draw_below_total (suc fuel) random i zero h r =
    (code_of (random i), ground (arith, ap random (plus_zero i)))
draw_below_total (suc fuel) random i (suc k) h r =
    let (code, e) = draw_below_total fuel random (suc i) k (omega arith) (rw (← plus_suc i k) r) in
    elim (Bool-cases (leb limit (random i))) [
      | inl high ↦ (code, rw high e)
      | inr low ↦ (code_of (random i), rw low)
    ]

-- The k-th of the 18 draws that stand for a code.
abbrev pub draw_for : ℕ → ℕ → ℕ
draw_for k code = k * code_count + (code - 100000)

-- A code, if the loop returns one, has six digits. The loop returns if one of the draws within the
-- fuel is below the limit.
pub generate_otp_code_bounds :
    (fuel : ℕ) (random : ℕ → ℕ)
    → ((code : ℕ) → generate_otp_code fuel random ≡ some code → (100000 ≤ code) × (code ≤ 999999))
      × ((k : ℕ)
          → k < fuel
          → random k < limit
          → (code : ℕ) × (generate_otp_code fuel random ≡ some code))
unfolding generate_otp_code
generate_otp_code_bounds fuel random =
    (draw_below_bounds fuel random 0, λ k h r. draw_below_total fuel random 0 k h (rw zero_plus r))

-- No code is likelier than another: the draws below the limit that give a six-digit code are
-- exactly the 18 numbers `draw_for k code` with k < 18.
pub code_of_uniform :
    (code : ℕ)
    → 100000 ≤ code
    → code ≤ 999999
    → ((k : ℕ) → k < 18 → (draw_for k code < limit) × (code_of (draw_for k code) ≡ code))
      × ((random : ℕ)
          → random < limit
          → code_of random ≡ code
          → (random / code_count < 18) × (random ≡ draw_for (random / code_count) code))
code_of_uniform code h h' =
    (λ k l. (omega arith, omega arith), λ random l e. (omega arith, omega arith))
