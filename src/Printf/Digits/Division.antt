-- ===== src/Printf/Digits/Division.antt =====
-- The round of `my_dec2str` in src/printf.c.
use qcom_ipq_aux_loader.Base.{ℕ, ◌+◌, ◌/◌, ◌%◌, ◌^◌, ◌≤◌, ◌<◌, ◌≡◌, arith}
use qcom_ipq_aux_loader.Printf.Digits.{tenth, split10}

-- The estimate is the quotient or one below it.
tenth_bounds : (a : ℕ) → a < 2 ^ 32 → (tenth a ≤ a / 10) × (a / 10 ≤ tenth a + 1)
unfolding tenth
tenth_bounds a h = (omega arith, omega arith)

-- A round of the decimal loop yields the remainder and the quotient by ten, for every 32-bit
-- number.
pub split10_lem : (a : ℕ) → a < 2 ^ 32 → split10 a ≡ record { r = a % 10; n = a / 10 }
split10_lem a h = let b = tenth_bounds a h in unfold split10 in ground arith
