-- ===== src/Printf/Format/Typed/Width.antt =====
-- How long the converted pieces are.
use Prim.Native.Nat.{max}
use mathlib.Core.List.{reverse}
use qcom_ipq_aux_loader.Base.{
  ℕ, ◌+◌, ◌-◌, ◌^◌, ◌≤◌, ◌<◌, ◌≡◌, ◌≢◌, ◌⊎◌, Bool, true, false, some, List, [], ◌∷◌, arith, length,
  length-append, length-replicate, replicate, ◌==◌, Bool-cases, inl, inr,
}
use qcom_ipq_aux_loader.Base.Index.{length-reverse}
use qcom_ipq_aux_loader.Printf.Number.{print_num, print_char, print_string}
use qcom_ipq_aux_loader.Printf.Number.Padding.{signed, field}
use qcom_ipq_aux_loader.Printf.Number.Conversions.{
  print_num-decimal, print_num-hexadecimal, print_num_no_digits,
}
use qcom_ipq_aux_loader.Printf.Format.{lp_max_buf}

pub length-field :
    (digits : List ℕ) (negative : Bool) (width : ℕ) (ladjust : Bool) (padc : ℕ)
    → length (field digits negative width ladjust padc)
      ≡ max width (length (signed negative digits))
length-field digits negative width true padc =
    let body = signed negative digits in
    let gap = width - length body in
    omega (arith, length-append body (replicate gap b' '), length-replicate {A = ℕ} gap b' ')
length-field digits true width false padc =
    let body = signed true digits in
    let gap = width - length body in
    elim (Bool-cases (padc == b'0')) [
      | inl zeros ↦ rw zeros (
          omega (
            arith,
            length-append (b'-' ∷ replicate gap b'0') (reverse digits),
            length-replicate {A = ℕ} gap b'0',
          ))
      | inr other ↦
          rw other
            (omega (arith, length-append (replicate gap padc) body, length-replicate gap padc))
    ]
length-field digits false width false padc =
    let body = signed false digits in
    let gap = width - length body in
    omega (arith, length-append (replicate gap padc) body, length-replicate gap padc)

pub length-signed :
    (negative : Bool) (digits : List ℕ) → length (signed negative digits) ≤ length digits + 1
length-signed true digits = omega (arith, length-reverse digits)
length-signed false digits = omega (arith, length-reverse digits)

-- The field of a number fits the buffer if its width does.
pub field-le :
    (digits : List ℕ) (negative : Bool) (width : ℕ) (ladjust : Bool) (padc : ℕ)
    → length digits ≤ 10
    → width ≤ lp_max_buf
    → length (field digits negative width ladjust padc) ≤ lp_max_buf
field-le digits negative width ladjust padc short fits =
    omega (arith, length-field digits negative width ladjust padc, length-signed negative digits)

pub print_num-fits :
    (n base : ℕ) (negative : Bool) (width : ℕ) (ladjust : Bool) (padc : ℕ) (upcase : Bool)
    → n < 2 ^ 32
    → width ≤ lp_max_buf
    → (base ≡ 10) ⊎ ((base ≡ 16) ⊎ ((base ≢ 10) × (base ≢ 16)))
    → (s : List ℕ) × (print_num n base negative width ladjust padc upcase ≡ some s)
      × (length s ≤ lp_max_buf)
print_num-fits n base negative width ladjust padc upcase h w (inl ten) =
    let (digits, e, shows) = print_num-decimal n negative width ladjust padc upcase h in
    (
      field digits negative width ladjust padc,
      rw ten e,
      field-le digits negative width ladjust padc shows.short w,
    )
print_num-fits n base negative width ladjust padc upcase h w (inr (inl sixteen)) =
    let (digits, e, shows) = print_num-hexadecimal n negative width ladjust padc upcase h in
    let short : length digits ≤ 10 = omega (arith, shows.short) in
    (
      field digits negative width ladjust padc,
      rw sixteen e,
      field-le digits negative width ladjust padc short w,
    )
print_num-fits n base negative width ladjust padc upcase h w (inr (inr (a, b))) = (
  field [] negative width ladjust padc,
  print_num_no_digits n negative width ladjust padc upcase base a b,
  field-le [] negative width ladjust padc (omega arith) w,
)

pub base-cases : (base : ℕ) → (base ≡ 10) ⊎ ((base ≡ 16) ⊎ ((base ≢ 10) × (base ≢ 16)))
base-cases base = ground arith

pub length-print_string :
    (s : List ℕ) (width : ℕ) (ladjust : Bool)
    → length (print_string s width ladjust) ≡ max width (length s)
unfolding print_string
length-print_string s width true =
    let gap = max width (length s) - length s in
    omega (arith, length-append s (replicate gap b' '), length-replicate {A = ℕ} gap b' ')
length-print_string s width false =
    let gap = max width (length s) - length s in
    omega (arith, length-append (replicate gap b' ') s, length-replicate {A = ℕ} gap b' ')

pub length-print_char :
    (c width : ℕ) (ladjust : Bool) → length (print_char c width ladjust) ≡ max width 1
unfolding print_char
length-print_char c width true =
    let gap = max width 1 - 1 in omega (arith, length-replicate {A = ℕ} gap b' ')
length-print_char c width false =
    let gap = max width 1 - 1 in
    omega (arith, length-append (replicate gap b' ') (c ∷ []), length-replicate {A = ℕ} gap b' ')
