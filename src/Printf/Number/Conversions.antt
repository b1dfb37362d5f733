-- ===== src/Printf/Number/Conversions.antt =====
-- Whole conversions: what a number looks like on the console.
use qcom_ipq_aux_loader.Base.{ℕ, ◌^◌, ◌<◌, ◌≡◌, ◌≢◌, Bool, some, List, [], arith}
use qcom_ipq_aux_loader.Printf.Digits.Numeral.{Shows, dec2str-Shows, hex2str-Shows}
use qcom_ipq_aux_loader.Printf.Number.{number_digits, print_num}
use qcom_ipq_aux_loader.Printf.Number.Padding.{field, print_num-field}

module _ (u : ℕ) (negative : Bool) (width : ℕ) (ladjust : Bool) (padc : ℕ) (upcase : Bool) where
  -- In base 10 `PrintNum` returns for every 32-bit number, and leaves the field of the number's
  -- decimal numeral, which has at most ten digits and no leading zero.
  pub print_num-decimal :
      u < 2 ^ 32
      → (digits : List ℕ) × (print_num u 10 negative width ladjust padc upcase
          ≡ some (field digits negative width ladjust padc))
        × Shows 10 10 u digits
  print_num-decimal h =
      let (digits, e, shows) = dec2str-Shows u upcase h in
      (
        digits,
        print_num-field u 10 negative width ladjust padc upcase digits (unfold number_digits in e),
        shows,
      )

  -- In base 16 `PrintNum` returns for every 32-bit number, and leaves the field of the number's
  -- hexadecimal numeral, which has at most eight digits and no leading zero.
  pub print_num-hexadecimal :
      u < 2 ^ 32
      → (digits : List ℕ) × (print_num u 16 negative width ladjust padc upcase
          ≡ some (field digits negative width ladjust padc))
        × Shows 16 8 u digits
  print_num-hexadecimal h =
      let (digits, e, shows) = hex2str-Shows u upcase h in
      (
        digits,
        print_num-field u 16 negative width ladjust padc upcase digits (unfold number_digits in e),
        shows,
      )

  -- In any base but 10 and 16 `PrintNum` writes no digit: the field is the same for all numbers.
  pub print_num_no_digits :
      (base : ℕ)
      → base ≢ 10
      → base ≢ 16
      → print_num u base negative width ladjust padc upcase
        ≡ some (field [] negative width ladjust padc)
  print_num_no_digits base not_ten not_sixteen =
      print_num-field u base negative width ladjust padc upcase []
        (unfold number_digits in ground arith)
