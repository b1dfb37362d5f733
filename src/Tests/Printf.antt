-- ===== src/Tests/Printf.antt =====
-- Calls of `printf` and its parts.
use qcom_ipq_aux_loader.Base.{
  ℕ, ◌-◌, ◌^◌, All, ◌≡◌, refl, some, true, false, List, [], ◌∷◌, ◌++◌, codes, arith,
}
use qcom_ipq_aux_loader.Printf.Reference.{
  digit_char, upper_hex, a_string, decimal, Template, ends, shows, format, IsTemplate,
}
use qcom_ipq_aux_loader.Printf.Reference.Agrees.{printf-render}
use qcom_ipq_aux_loader.Printf.Digits.Numeral.{Shows}
use qcom_ipq_aux_loader.Printf.Number.{print_num}
use qcom_ipq_aux_loader.Printf.Format.Typed.{IsWord}
use qcom_ipq_aux_loader.Printf.Number.Padding.{field}
use qcom_ipq_aux_loader.Printf.Number.Conversions.{print_num-decimal}
use qcom_ipq_aux_loader.Printf.Format.{word, text, done, with_returns, take_number, printf}
use qcom_ipq_aux_loader.Printf.Format.Reading.{take_number-print_num}

print_num-decimal_example :
    (digits : List ℕ) × (print_num 4200 10 true 8 false b'0' false
      ≡ some (field digits true 8 false b'0'))
    × Shows 10 10 4200 digits
print_num-decimal_example = print_num-decimal 4200 true 8 false b'0' false (omega arith)

take_number-print_num_example :
    (s : List ℕ) × (print_num 4200 10 false 8 false b'0' false ≡ some s)
    × (take_number 0 (s ++ codes "d;") ≡ (4200, codes "d;"))
take_number-print_num_example =
    take_number-print_num 4200 8 false (codes "d;") (omega arith) (omega arith) refl

-- "Op 0x%08X of %-5s|%d\n"
abbrev template : Template
template =
    shows (codes "Op 0x") (record { left = false; zeros = true; digits = codes "8" }) upper_hex
      (shows (codes " of ") (record { left = true; zeros = false; digits = codes "5" }) a_string
        (shows (codes "|") (record { left = false; zeros = false; digits = [] }) decimal
          (ends (codes "\n"))))

template_text : format template ≡ codes "Op 0x%08X of %-5s|%d\n"
template_text = refl

printf-render_example :
    printf (format template) (word 0xbeef ∷ text (codes "fit") ∷ word (2 ^ 32 - 99) ∷ [])
    ≡ done (with_returns (codes "Op 0x0000BEEF of fit  |-99\n"))
unfolding digit_char
printf-render_example =
    printf-render template (word 0xbeef ∷ text (codes "fit") ∷ word (2 ^ 32 - 99) ∷ []) _ facts
      words refl
  where
    words : All IsWord (word 0xbeef ∷ text (codes "fit") ∷ word (2 ^ 32 - 99) ∷ [])
    words = (omega arith, (tt, (omega arith, tt)))

    facts : IsTemplate template
    facts = ground arith
