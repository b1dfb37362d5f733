-- ===== src/Printf/Reference/Numerals.antt =====
-- The digits of src/printf.c against the numerals of the reference.
use qcom_ipq_aux_loader.Base.{
  ℕ, zero, suc, ◌/◌, ◌%◌, ◌^◌, ◌<◌, ◌≡◌, ◌≤◌, refl, ap, ◌∙◌, Bool, false, Option, some, List, [],
  ◌∷◌, true, arith, ◌==◌, if◌then◌else◌,
}
use native.Mathlib.Decide.{dec_lt}
use native.Mathlib.Nat.{pow-zero, mod-lt, mod-eq_of_lt, div-eq_of_lt}
use qcom_ipq_aux_loader.Printf.Digits.{cons, wr2p, dec_loop, my_dec2str, hex_loop, my_hex2str}
use qcom_ipq_aux_loader.Printf.Digits.Numeral.{
  dec_loop-suc, hex_loop-suc, quotient-lt, quotient-lt32,
}
use qcom_ipq_aux_loader.Printf.Reference.{digit_char, numeral}

wr2p-digit_char : (upcase : Bool) (d : ℕ) → d < 16 → wr2p upcase d ≡ digit_char upcase d
unfolding wr2p digit_char
wr2p-digit_char true d h = ground arith
wr2p-digit_char false d h = ground arith

-- A loop that writes a digit and goes on at the quotient; 0 ends it.
module _ (upcase : Bool) (base : ℕ) (loop : ℕ → ℕ → Option (List ℕ)) (two : 2 ≤ base)
    (most : base ≤ 16) (ends : (rounds : ℕ) → loop (suc rounds) 0 ≡ some [])
    (goes_on : (rounds a : ℕ)
      → 0 < a
      → a < 2 ^ 32
      → loop (suc rounds) a ≡ cons (wr2p upcase (a % base)) (loop rounds (a / base))) where
  at_quotient :
      (k q : ℕ) (rest : List ℕ)
      → (0 < q → loop (suc k) q ≡ some rest)
      → loop (suc k) q ≡ some (if q == 0 then [] else rest)
  at_quotient k zero rest h = ends k
  at_quotient k (suc q) rest h = rw (==_suc q) (h (omega arith))
    where
      ==_suc : (q : ℕ) → (suc q == 0) ≡ false
      ==_suc q = ground arith

  loop-numeral :
      (k a : ℕ)
      → 0 < a
      → a < base ^ k
      → a < 2 ^ 32
      → loop (suc k) a ≡ some (numeral upcase base k a)
  loop-numeral zero a pos h w = absurd (omega (arith, pow-zero base))
  loop-numeral (suc k) a pos h w =
      let low : a % base < base = mod-lt a (omega arith) in
      goes_on (suc k) a pos w
      ∙ ap (λ c. cons c (loop (suc k) (a / base))) (wr2p-digit_char upcase (a % base) (omega arith))
      ∙ ap (cons (digit_char upcase (a % base))) (
          at_quotient k (a / base) (numeral upcase base k (a / base)) λ more.
            loop-numeral k (a / base) more (quotient-lt base k a two h) (quotient-lt32 base a w))

-- A number below the base.
single :
    (upcase : Bool) (base k a : ℕ)
    → base ≤ 16
    → a < base
    → numeral upcase base (suc k) a ≡ wr2p upcase a ∷ []
single upcase base k a most h =
    let low : a % base ≡ a = mod-eq_of_lt h in
    let none : a / base ≡ 0 = div-eq_of_lt h in
    rw (low, none, wr2p-digit_char upcase a (omega arith)) refl

pub dec2str-numeral :
    (a : ℕ) (upcase : Bool) → a < 2 ^ 32 → my_dec2str a upcase ≡ some (numeral upcase 10 10 a)
dec2str-numeral a upcase h = elim (dec_lt a 10) [
  | yes small ↦ rw (single upcase 10 9 a (omega arith) small) (unfold my_dec2str in ground arith)
  | no large ↦ elim (dec_lt 10 a) [
    | yes larger ↦
        let e =
          loop-numeral upcase 10 (dec_loop upcase) (omega arith) (omega arith)
            (λ rounds. unfold dec_loop in refl) (dec_loop-suc upcase) 10 a (omega arith)
            (omega arith) h in
        unfold my_dec2str in ground arith
    | no not_larger ↦
        let ten : a ≡ 10 = omega arith in rw ten (unfold my_dec2str wr2p digit_char in refl)
  ]
]

pub hex2str-numeral :
    (a : ℕ) (upcase : Bool) → a < 2 ^ 32 → my_hex2str a upcase ≡ some (numeral upcase 16 8 a)
hex2str-numeral a upcase h = elim (dec_lt a 16) [
  | yes small ↦ rw (single upcase 16 7 a (omega arith) small) (unfold my_hex2str in ground arith)
  | no large ↦
      let e =
        loop-numeral upcase 16 (hex_loop upcase) (omega arith) (omega arith)
          (λ rounds. unfold hex_loop in refl) (hex_loop-suc upcase) 8 a (omega arith) (omega arith)
          h in
      unfold my_hex2str in ground arith
]
