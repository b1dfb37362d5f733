-- ===== src/Base/Digits.antt =====
-- Single bits of words, and what the bit operations do to them.
use Prim.Native.Nat.{ℕ, zero, suc, ◌/◌, ◌%◌, bit_and, bit_or, min, max}
use mathlib.Core.Path.{◌≡◌}
use native.Mathlib.Omega.{arith}
use qcom_ipq_aux_loader.Base.Bits.{bit_and_digit, bit_or_digit}

-- Bit `k` of a number.
abbrev pub bit : ℕ → ℕ → ℕ
bit zero a = a % 2
bit (suc k) a = bit k (a / 2)

pub bit-bit_and : (k a b : ℕ) → bit k (bit_and a b) ≡ min (bit k a) (bit k b)
bit-bit_and zero a b = omega (arith, bit_and_digit a b)
bit-bit_and (suc k) a b =
    let half : bit_and a b / 2 ≡ bit_and (a / 2) (b / 2) = omega (arith, bit_and_digit a b) in
    rw half (bit-bit_and k (a / 2) (b / 2))

pub bit-bit_or : (k a b : ℕ) → bit k (bit_or a b) ≡ max (bit k a) (bit k b)
bit-bit_or zero a b = omega (arith, bit_or_digit a b)
bit-bit_or (suc k) a b =
    let half : bit_or a b / 2 ≡ bit_or (a / 2) (b / 2) = omega (arith, bit_or_digit a b) in
    rw half (bit-bit_or k (a / 2) (b / 2))
