-- ===== src/Cache/Logarithm.antt =====
-- `log_2_n_round_up` of src/cpu.c.
use qcom_ipq_aux_loader.Base.{
  ℕ, zero, suc, ◌+◌, ◌-◌, ◌*◌, ◌/◌, ◌%◌, ◌^◌, ◌<◌, ◌≤◌, ◌≡◌, ◌⊎◌, true, false, subst, sym, refl,
  bit_and, sub32, arith, ◌==◌, Bool-cases, inl, inr,
}
use native.Mathlib.Nat.{pow-suc}
use qcom_ipq_aux_loader.Base.Bits.{bit_and_digit}
use qcom_ipq_aux_loader.Cache.{bit_length, log_2_n_round_up}

-- A number and the number below it share no bit exactly for powers of two: how this halves.
and_pred_even : (q : ℕ) → 0 < q → bit_and (2 * q) (2 * q - 1) ≡ 2 * bit_and q (q - 1)
and_pred_even q h =
    let a : 2 * q / 2 ≡ q = omega arith in
    let b : (2 * q - 1) / 2 ≡ q - 1 = omega arith in
    let d = rw (a, b) at (bit_and_digit (2 * q) (2 * q - 1)) in omega (arith, d)

and_same_pos : (rounds q : ℕ) → 0 < q → q < 2 ^ rounds → 0 < bit_and q q
and_same_pos zero q h lt = absurd (omega arith)
and_same_pos (suc rounds) q h lt = elim (Bool-cases (q / 2 == 0)) [
  | inl e ↦ ground (arith, bit_and_digit q q)
  | inr e ↦
      let pos : 0 < q / 2 = ground arith in
      omega (
        arith,
        bit_and_digit q q,
        and_same_pos rounds (q / 2) pos (omega (arith, pow-suc 2 rounds)),
      )
]

and_pred_odd : (q : ℕ) → 0 < q → q < 2 ^ 32 → 0 < bit_and (2 * q + 1) (2 * q)
and_pred_odd q h lt =
    let a : (2 * q + 1) / 2 ≡ q = omega arith in
    let b : 2 * q / 2 ≡ q = omega arith in
    let d = rw (a, b) at (bit_and_digit (2 * q + 1) (2 * q)) in
    omega (arith, d, and_same_pos 32 q h lt)

-- What is known of a number whose highest bit is `k`.
pub record Highest (rounds n k : ℕ) : Type 0 where
  pub length : bit_length rounds n ≡ suc k
  pub low : 2 ^ k ≤ n
  pub high : n < 2 ^ suc k
  pub inside : k < rounds
  pub power : ((bit_and n (n - 1) ≡ 0) × (n ≡ 2 ^ k)) ⊎ ((0 < bit_and n (n - 1)) × (2 ^ k < n))

bit_length-zero : (rounds : ℕ) → bit_length rounds 0 ≡ 0
unfolding bit_length
bit_length-zero zero = refl
bit_length-zero (suc rounds) = refl

-- A bit below a number that is not 0.
Highest-double :
    (rounds q r k : ℕ)
    → 0 < q
    → q < 2 ^ 32
    → r < 2
    → Highest rounds q k
    → Highest (suc rounds) (2 * q + r) (suc k)
unfolding bit_length
Highest-double rounds q r k pos small bit h =
    let half : (2 * q + r) / 2 ≡ q = omega arith in
    let nonzero : (2 * q + r == 0) ≡ false = ground arith in
    record {
      length = rw (nonzero, half, h.length) refl;
      low = omega (arith, pow-suc 2 k, h.low);
      high = omega (arith, pow-suc 2 k, pow-suc 2 (suc k), h.high);
      inside = omega (arith, h.inside);
      power = power_of r bit;
    }
  where
    power_of :
        (r : ℕ)
        → r < 2
        → ((bit_and (2 * q + r) (2 * q + r - 1) ≡ 0) × (2 * q + r ≡ 2 ^ suc k))
          ⊎ ((0 < bit_and (2 * q + r) (2 * q + r - 1)) × (2 ^ suc k < 2 * q + r))
    power_of zero lt =
        let same : 2 * q + 0 ≡ 2 * q = omega arith in
        let even = and_pred_even q pos in
        rw same (elim h.power [
          | inl (a, b) ↦ inl (omega (arith, even, a), omega (arith, pow-suc 2 k, b))
          | inr (a, b) ↦ inr (omega (arith, even, a), omega (arith, pow-suc 2 k, b))
        ])
    power_of (suc zero) lt =
        let below : 2 * q + 1 - 1 ≡ 2 * q = omega arith in
        rw below (inr (and_pred_odd q pos small, omega (arith, pow-suc 2 k, h.low)))
    power_of (suc (suc r)) lt = absurd (omega arith)

highest : (rounds n : ℕ) → 0 < n → n < 2 ^ rounds → n < 2 ^ 32 → (k : ℕ) × Highest rounds n k
unfolding bit_length
highest zero n pos lt small = absurd (omega arith)
highest (suc rounds) n pos lt small = elim (Bool-cases (n / 2 == 0)) [
  | inl e ↦ (0, one n (ground arith))
  | inr e ↦
      let pos' : 0 < n / 2 = ground arith in
      let (k, h) = highest rounds (n / 2) pos' (omega (arith, pow-suc 2 rounds)) (omega arith) in
      let split : 2 * (n / 2) + n % 2 ≡ n = omega arith in
      (
        suc k,
        subst (λ m. Highest (suc rounds) m (suc k)) split
            (Highest-double rounds (n / 2) (n % 2) k pos' (omega arith) (omega arith) h),
      )
]
  where
    one : (n : ℕ) → n ≡ 1 → Highest (suc rounds) n 0
    one n e =
        subst (λ m. Highest (suc rounds) m 0) (sym e)
          (record {
            length = rw bit_length-zero refl;
            low = omega arith;
            high = omega arith;
            inside = omega arith;
            power = inl (refl, refl);
          })

-- For a positive 32-bit number, the result is the least exponent whose power of two is not below
-- the number.
pub log_2_n_round_up_lem :
    (n : ℕ) → 0 < n → n < 2 ^ 32 → (n ≤ 2 ^ log_2_n_round_up n) × (2 ^ log_2_n_round_up n < 2 * n)
unfolding log_2_n_round_up
log_2_n_round_up_lem n pos small =
    let (k, h) = highest 32 n pos small small in
    let pred : sub32 n 1 ≡ n - 1 = omega arith in
    let exact : sub32 (suc k) 1 ≡ k = omega (arith, h.inside) in
    elim h.power [
      | inl (a, b) ↦
          let zeros : (bit_and n (n - 1) == 0) ≡ true = ground arith in
          rw (pred, zeros, h.length, exact) (omega (arith, b), omega (arith, b))
      | inr (a, b) ↦
          let ones : (bit_and n (n - 1) == 0) ≡ false = ground arith in
          rw (pred, ones, h.length) (omega (arith, h.high), omega (arith, pow-suc 2 k, b))
    ]
