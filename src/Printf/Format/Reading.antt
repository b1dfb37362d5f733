-- ===== src/Printf/Format/Reading.antt =====
-- The numbers that src/printf.c writes, read by the loop of `lp_Print` that reads a width.
use mathlib.Core.List.{reverse, reverse-append, append_assoc}
use qcom_ipq_aux_loader.Base.{
  ℕ, zero, suc, ◌+◌, ◌-◌, ◌*◌, ◌^◌, ◌<◌, ◌≤◌, ◌≡◌, refl, ap, ◌∙◌, Bool, true, false, some, List, [],
  ◌∷◌, ◌++◌, arith, replicate, length,
}
use qcom_ipq_aux_loader.Printf.Digits.Numeral.{value, Digits, digit_value}
use qcom_ipq_aux_loader.Printf.Number.{print_num}
use qcom_ipq_aux_loader.Printf.Number.Conversions.{print_num-decimal}
use qcom_ipq_aux_loader.Printf.Format.{lp_max_buf, is_digit, take_number}

-- The text does not go on with a digit.
abbrev pub Stops : List ℕ → Type 0
Stops [] = Unit
Stops (c ∷ s) = is_digit c ≡ false

take_zeros :
    (gap : ℕ) (rest : List ℕ) → take_number 0 (replicate gap b'0' ++ rest) ≡ take_number 0 rest
unfolding take_number
take_zeros zero rest = refl
take_zeros (suc gap) rest = take_zeros gap rest

take_digit :
    (n c : ℕ) (rest : List ℕ)
    → b'0' ≤ c
    → digit_value c < 10
    → take_number n (c ∷ rest) ≡ take_number (digit_value c + 10 * n) rest
unfolding take_number
take_digit n c rest low small =
    let digit : is_digit c ≡ true = ground arith in
    let next : 10 * n + (c - b'0') ≡ digit_value c + 10 * n = ground arith in rw (digit, next) refl

take-Digits :
    (s rest : List ℕ)
    → Digits 10 s
    → take_number 0 (reverse s ++ rest) ≡ take_number (value 10 s) rest
take-Digits [] rest h = refl
take-Digits (c ∷ s) rest ((low, small), others) =
    let order : reverse (c ∷ s) ++ rest ≡ reverse s ++ (c ∷ rest) =
      ap (λ t. t ++ rest) (reverse-append (c ∷ []) s) ∙ append_assoc (reverse s) (c ∷ []) rest in
    ap (take_number 0) order
    ∙ take-Digits s (c ∷ rest) others
    ∙ take_digit (value 10 s) c rest low small

take_stop : (n : ℕ) (rest : List ℕ) → Stops rest → take_number n rest ≡ (n, rest)
unfolding take_number
take_stop n [] h = refl
take_stop n (c ∷ s) h = rw h refl

-- A number below 2 ^ 31 that `PrintNum` has written in base 10 into a field of at most 256
-- characters, with zeros in front, is read back by the loop that `lp_Print` reads a width with, up
-- to the first character behind it that is no digit.
pub take_number-print_num :
    (u width : ℕ) (upcase : Bool) (rest : List ℕ)
    → u < 2 ^ 31
    → width ≤ lp_max_buf
    → Stops rest
    → (s : List ℕ) × (print_num u 10 false width false b'0' upcase ≡ some s)
      × (take_number 0 (s ++ rest) ≡ (u, rest))
take_number-print_num u width upcase rest h short stops =
    let (digits, e, shows) = print_num-decimal u false width false b'0' upcase (omega arith) in
    let gap = width - length (reverse digits) in
    let read =
      ap (take_number 0) (append_assoc (replicate gap b'0') (reverse digits) rest)
      ∙ take_zeros gap (reverse digits ++ rest)
      ∙ take-Digits digits rest shows.digits
      ∙ ap (λ n. take_number n rest) shows.value_eq
      ∙ take_stop u rest stops in
    (replicate gap b'0' ++ reverse digits, e, read)
