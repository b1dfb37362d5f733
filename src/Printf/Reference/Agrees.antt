-- ===== src/Printf/Reference/Agrees.antt =====
-- `printf` of src/printf.c against the reference.
use mathlib.Core.Option.{some-injective}
use mathlib.Core.List.{append-nil}
use qcom_ipq_aux_loader.Base.{
  ℕ, zero, suc, ◌-◌, ◌^◌, ◌≤◌, ◌<◌, ◌≡◌, refl, sym, ap, ◌∙◌, Bool, true, false, Option, none, some,
  List, [], ◌∷◌, ◌++◌, All, ◌&&◌, arith, length, length-append, u8, sub32, leb, leb→le, ◌==◌,
  if◌then◌else◌, Bool-cases, and-eq-true, inl, inr,
}
use qcom_ipq_aux_loader.Printf.Number.{number_digits, print_char, print_string}
use qcom_ipq_aux_loader.Printf.Number.Padding.{print_num-field, max-sub}
use qcom_ipq_aux_loader.Printf.Format.{
  Arg, word, text, done, lp_max_buf, Directive, in_buf, number, signed_number, character, string,
  convert, is_terminator, with_returns, printf_output, output, lp_round, lp_print, printf,
}
use qcom_ipq_aux_loader.Printf.Format.Typed.{IsWord}
use qcom_ipq_aux_loader.Printf.Reference.{
  Kind, decimal, unsigned, lower_hex, upper_hex, a_character, a_string, Spec, Template, ends, shows,
  letter, flags, format, number_of, IsWidth, IsText, IsTemplate, numeral, in_blanks, number_field,
  show_arg, fits, joined, render,
}
use qcom_ipq_aux_loader.Printf.Reference.Numerals.{dec2str-numeral, hex2str-numeral}
use qcom_ipq_aux_loader.Printf.Reference.Directives.{
  literal_behind, literal_whole, letter-IsLetter, directive-flags,
}

-- What the scan leaves for a conversion.
abbrev scanned : Spec → Kind → List ℕ → Directive
scanned sp k rest = record {
  width = number_of 0 sp.digits;
  ladjust = sp.left;
  padc = if sp.zeros then b'0' else b' ';
  rest = letter k ∷ rest;
}

in_buf_fits :
    (args : List Arg) (o : Option (List ℕ)) (s : List ℕ)
    → o ≡ some s
    → leb (length s) lp_max_buf ≡ true
    → in_buf args o ≡ some (s, args)
in_buf_fits args o s e short = rw (e, short) refl

number_field-shows :
    (sp : Spec) (k : Kind) (rest : List ℕ) (args : List Arg) (n base : ℕ) (upcase : Bool)
    (digits piece : List ℕ)
    → number_digits n base upcase ≡ some digits
    → some (number_field sp false digits) ≡ some piece
    → leb (length piece) lp_max_buf ≡ true
    → number base upcase (scanned sp k rest) (word n ∷ args) ≡ some (piece, args)
unfolding number
number_field-shows sp k rest args n base upcase digits piece e f short =
    in_buf_fits args _ piece (print_num-field n base false _ sp.left _ upcase digits e ∙ f) short

dec_digits : (n : ℕ) → n < 2 ^ 32 → number_digits n 10 false ≡ some (numeral false 10 10 n)
unfolding number_digits
dec_digits n h = dec2str-numeral n false h

hex_digits :
    (n : ℕ) (upcase : Bool) → n < 2 ^ 32 → number_digits n 16 upcase ≡ some (numeral upcase 16 8 n)
unfolding number_digits
hex_digits n upcase h = hex2str-numeral n upcase h

print_string_lem :
    (s : List ℕ) (width : ℕ) (left : Bool) → print_string s width left ≡ in_blanks left width s
unfolding print_string
print_string_lem s width true = rw max-sub refl
print_string_lem s width false = rw max-sub refl

print_char_lem :
    (c width : ℕ) (left : Bool) → print_char c width left ≡ in_blanks left width (c ∷ [])
unfolding print_char
print_char_lem c width true = rw max-sub refl
print_char_lem c width false = rw max-sub refl

signed-shows :
    (sp : Spec) (rest : List ℕ) (args : List Arg) (n : ℕ) (piece : List ℕ)
    → n < 2 ^ 32
    → show_arg sp decimal (word n) ≡ some piece
    → leb (length piece) lp_max_buf ≡ true
    → signed_number (scanned sp decimal rest) (word n ∷ args) ≡ some (piece, args)
unfolding signed_number
signed-shows sp rest args n piece h e short = elim (Bool-cases (leb (2 ^ 31) n)) [
  | inl big ↦
      let low = leb→le (2 ^ 31) n big in
      let minus : sub32 0 n ≡ 2 ^ 32 - n = omega arith in
      rw (big, minus)
        (in_buf_fits args _ piece
          (print_num-field (2 ^ 32 - n) 10 true _ sp.left _ false _
              (dec_digits (2 ^ 32 - n) (omega arith))
            ∙ (rw big at (e)))
          short)
  | inr small ↦ rw small (
      in_buf_fits args _ piece
        (print_num-field n 10 false _ sp.left _ false _ (dec_digits n h) ∙ (rw small at (e))) short)
]

convert-shows :
    (k : Kind) (sp : Spec) (rest : List ℕ) (a : Arg) (args : List Arg) (piece : List ℕ)
    → IsWord a
    → show_arg sp k a ≡ some piece
    → leb (length piece) lp_max_buf ≡ true
    → convert (letter k) (scanned sp k rest) (a ∷ args) ≡ some (piece, args)
unfolding convert character string
convert-shows decimal sp rest (word n) args piece h e short =
    signed-shows sp rest args n piece h e short
convert-shows unsigned sp rest (word n) args piece h e short =
    number_field-shows sp unsigned rest args n 10 false _ piece (dec_digits n h) e short
convert-shows lower_hex sp rest (word n) args piece h e short =
    number_field-shows sp lower_hex rest args n 16 false _ piece (hex_digits n false h) e short
convert-shows upper_hex sp rest (word n) args piece h e short =
    number_field-shows sp upper_hex rest args n 16 true _ piece (hex_digits n true h) e short
convert-shows a_character sp rest (word c) args piece h e short =
    in_buf_fits args _ piece (ap some (print_char_lem (u8 c) _ sp.left) ∙ e) short
convert-shows a_string sp rest (text s) args piece h e short =
    in_buf_fits args _ piece (ap some (print_string_lem s _ sp.left) ∙ e) short
convert-shows decimal sp rest (text s) args piece h e short = cc
convert-shows unsigned sp rest (text s) args piece h e short = cc
convert-shows lower_hex sp rest (text s) args piece h e short = cc
convert-shows upper_hex sp rest (text s) args piece h e short = cc
convert-shows a_character sp rest (text s) args piece h e short = cc
convert-shows a_string sp rest (word n) args piece h e short = cc

with_returns-append : (s t : List ℕ) → with_returns (s ++ t) ≡ with_returns s ++ with_returns t
with_returns-append [] t = refl
with_returns-append (c ∷ s) t = elim (Bool-cases (c == 10)) [
  | inl e ↦ rw e (ap (λ r. c ∷ 13 ∷ r) (with_returns-append s t))
  | inr e ↦ rw e (ap (λ r. c ∷ r) (with_returns-append s t))
]

output-fits : (s t : List ℕ) → fits s ≡ true → output s (done t) ≡ done (with_returns s ++ t)
unfolding output printf_output
output-fits s t h =
    let (short, plain) = and-eq-true (leb (length s) lp_max_buf) _ h in
    let not_nul : is_terminator s ≡ false = ground arith in rw (short, not_nul) refl

joined-inv :
    (s : List ℕ) (o rest : Option (List ℕ)) (out : List ℕ)
    → joined s o rest ≡ some out
    → (piece : List ℕ) × (r : List ℕ) × (o ≡ some piece)
      × (rest ≡ some r)
      × (fits s ≡ true)
      × (fits piece ≡ true)
      × (out ≡ s ++ (piece ++ r))
joined-inv s none rest out e = cc
joined-inv s (some piece) none out e = cc
joined-inv s (some piece) (some r) out e = elim (Bool-cases (fits s && fits piece)) [
  | inl h ↦
      let (first, second) = and-eq-true (fits s) (fits piece) h in
      (piece, r, refl, refl, first, second, sym (some-injective _ _ (rw h at (e))))
  | inr h ↦ cc (rw h at (e))
]

render-ends :
    (rounds : ℕ) (s : List ℕ) (args : List Arg) (out : List ℕ)
    → IsText s
    → render (ends s) args ≡ some out
    → lp_print (suc rounds) s args ≡ done (with_returns out)
unfolding lp_print lp_round output printf_output
render-ends rounds s args out plain e = elim (Bool-cases (fits s)) [
  | inl h ↦
      let same : s ≡ out = some-injective s out (rw h at (e)) in
      rw (literal_whole s plain)
        (output-fits s [] h ∙ ap done (append-nil (with_returns s) ∙ ap with_returns same))
  | inr h ↦ cc (rw h at (e))
]

render-shows :
    (rounds : ℕ) (s : List ℕ) (sp : Spec) (k : Kind) (t : Template) (a : Arg) (args : List Arg)
    (piece r : List ℕ)
    → IsText s
    → IsWidth sp.digits
    → IsWord a
    → fits s ≡ true
    → fits piece ≡ true
    → show_arg sp k a ≡ some piece
    → lp_print rounds (format t) args ≡ done (with_returns r)
    → lp_print (suc rounds) (format (shows s sp k t)) (a ∷ args)
      ≡ done (with_returns (s ++ (piece ++ r)))
unfolding lp_print lp_round
render-shows rounds s sp k t a args piece r plain width is_word fits_s fits_piece shown rest =
    let short = (and-eq-true (leb (length piece) lp_max_buf) _ fits_piece).0 in
    let scan = directive-flags sp (letter k) (format t) width (letter-IsLetter k) in
    let parts : with_returns s ++ (with_returns piece ++ with_returns r)
        ≡ with_returns (s ++ (piece ++ r)) =
      rw (with_returns-append s (piece ++ r), with_returns-append piece r) refl in
    rw
      (
        literal_behind s (flags sp (letter k ∷ format t)) plain,
        scan,
        scan,
        convert-shows k sp (format t) a args piece is_word shown short,
        rest,
        output-fits piece (with_returns r) fits_piece,
        output-fits s (with_returns piece ++ with_returns r) fits_s,
      )
      (ap done parts)

-- The conversions of a format.
abbrev conversions : Template → ℕ
conversions (ends s) = 0
conversions (shows s sp k t) = suc (conversions t)

lp_print-render :
    (t : Template) (rounds : ℕ) (args : List Arg) (out : List ℕ)
    → IsTemplate t
    → All IsWord args
    → conversions t < rounds
    → render t args ≡ some out
    → lp_print rounds (format t) args ≡ done (with_returns out)
lp_print-render t zero args out h words enough e = absurd (omega arith)
lp_print-render (ends s) (suc rounds) args out h words enough e = render-ends rounds s args out h e
lp_print-render (shows s sp k t) (suc rounds) [] out h words enough e = cc
lp_print-render (shows s sp k t) (suc rounds) (a ∷ args) out (plain, (width, h)) (w, words) enough
      e =
    let (piece, r, shown, rest, fits_s, fits_piece, same) =
      joined-inv s (show_arg sp k a) (render t args) out e in
    rw same (
      render-shows rounds s sp k t a args piece r plain width w fits_s fits_piece shown
        (lp_print-render t rounds args r h words (omega arith) rest))

length-flags : (sp : Spec) (rest : List ℕ) → length rest ≤ length (flags sp rest)
length-flags sp rest = by_flags sp.left sp.zeros
  where
    by_flags :
        (left zeros : Bool)
        → length rest
          ≤ length (flags (record { left = left; zeros = zeros; digits = sp.digits }) rest)
    by_flags true true = omega (arith, length-append sp.digits rest)
    by_flags true false = omega (arith, length-append sp.digits rest)
    by_flags false true = omega (arith, length-append sp.digits rest)
    by_flags false false = omega (arith, length-append sp.digits rest)

conversions-length : (t : Template) → conversions t ≤ length (format t)
conversions-length (ends s) = omega arith
conversions-length (shows s sp k t) = omega (
  arith,
  length-append s (b'%' ∷ flags sp (letter k ∷ format t)),
  length-flags sp (letter k ∷ format t),
  conversions-length t,
)

-- `printf` prints what the reference says, with a carriage return behind each newline: for every
-- format of texts and of conversions %d, %u, %x, %X, %c and %s with flags and widths, and arguments
-- of their types, as long as no text and no field has more than 256 characters or is a lone NUL.
pub printf-render :
    (t : Template) (args : List Arg) (out : List ℕ)
    → IsTemplate t
    → All IsWord args
    → render t args ≡ some out
    → printf (format t) args ≡ done (with_returns out)
unfolding printf
printf-render t args out h words e =
    let le = conversions-length t in
    lp_print-render t (suc (length (format t))) args out h words (omega arith) e
