-- ===== src/Printf/Reference/Directives.antt =====
-- The scan of a format in src/printf.c on the text of a template.
use qcom_ipq_aux_loader.Base.{
  ℕ, ◌+◌, ◌*◌, ◌-◌, ◌≡◌, refl, arith, Bool, true, false, List, [], ◌∷◌, ◌++◌, All, ◌==◌,
  if◌then◌else◌,
}
use qcom_ipq_aux_loader.Printf.Format.{accept, is_digit, take_number, directive, literal}
use qcom_ipq_aux_loader.Printf.Reference.{
  Kind, decimal, unsigned, lower_hex, upper_hex, a_character, a_string, Spec, letter, flags,
  number_of, IsWidth, IsText,
}

pub literal_behind : (s rest : List ℕ) → IsText s → literal (s ++ b'%' ∷ rest) ≡ (s, b'%' ∷ rest)
unfolding literal
literal_behind [] rest h = refl
literal_behind (c ∷ s) rest (plain, h) = rw (literal_behind s rest h, plain) refl

pub literal_whole : (s : List ℕ) → IsText s → literal s ≡ (s, [])
unfolding literal
literal_whole [] h = refl
literal_whole (c ∷ s) (plain, h) = rw (literal_whole s h, plain) refl

-- A character that ends a width and is no flag.
pub record IsLetter (c : ℕ) : Type 0 where
  pub long : (c == b'l') ≡ false
  pub minus : (c == b'-') ≡ false
  pub nought : (c == b'0') ≡ false
  pub dot : (c == b'.') ≡ false
  pub digit : is_digit c ≡ false

pub letter-IsLetter : (k : Kind) → IsLetter (letter k)
letter-IsLetter decimal = record {
  long = refl;
  minus = refl;
  nought = refl;
  dot = refl;
  digit = refl;
}
letter-IsLetter unsigned = record {
  long = refl;
  minus = refl;
  nought = refl;
  dot = refl;
  digit = refl;
}
letter-IsLetter lower_hex = record {
  long = refl;
  minus = refl;
  nought = refl;
  dot = refl;
  digit = refl;
}
letter-IsLetter upper_hex = record {
  long = refl;
  minus = refl;
  nought = refl;
  dot = refl;
  digit = refl;
}
letter-IsLetter a_character = record {
  long = refl;
  minus = refl;
  nought = refl;
  dot = refl;
  digit = refl;
}
letter-IsLetter a_string = record {
  long = refl;
  minus = refl;
  nought = refl;
  dot = refl;
  digit = refl;
}

take_number_width :
    (n : ℕ) (digits : List ℕ) (c : ℕ) (rest : List ℕ)
    → All (λ d. is_digit d ≡ true) digits
    → is_digit c ≡ false
    → take_number n (digits ++ c ∷ rest) ≡ (number_of n digits, c ∷ rest)
unfolding take_number
take_number_width n [] c rest h no_digit = rw no_digit refl
take_number_width n (d ∷ digits) c rest (digit, h) no_digit =
    rw digit (take_number_width (10 * n + (d - b'0')) digits c rest h no_digit)

-- The scan, where what stands behind the flags starts with a character that is none.
module _ (e : ℕ) (es : List ℕ) (long : (e == b'l') ≡ false) (minus : (e == b'-') ≡ false)
    (nought : (e == b'0') ≡ false) (c : ℕ) (rest : List ℕ) (dot : (c == b'.') ≡ false) (width : ℕ)
    (number : take_number 0 (e ∷ es) ≡ (width, c ∷ rest)) where
  scan :
      (left zeros : Bool)
      → directive (
          let behind = if zeros then b'0' ∷ e ∷ es else e ∷ es in
          if left then b'-' ∷ behind else behind)
        ≡ record {
          width = width;
          ladjust = left;
          padc = if zeros then b'0' else b' ';
          rest = c ∷ rest;
        }
  unfolding directive accept
  scan true true = rw (number, dot) refl
  scan true false = rw (nought, number, dot) refl
  scan false true = rw (number, dot) refl
  scan false false = rw (long, minus, nought, number, dot) refl

pub directive-flags :
    (sp : Spec) (c : ℕ) (rest : List ℕ)
    → IsWidth sp.digits
    → IsLetter c
    → directive (flags sp (c ∷ rest)) ≡ record {
      width = number_of 0 sp.digits;
      ladjust = sp.left;
      padc = if sp.zeros then b'0' else b' ';
      rest = c ∷ rest;
    }
directive-flags sp c rest w h = of_digits sp.digits w
  where
    of_digits :
        (digits : List ℕ)
        → IsWidth digits
        → directive
            (flags (record { left = sp.left; zeros = sp.zeros; digits = digits }) (c ∷ rest))
          ≡ record {
            width = number_of 0 digits;
            ladjust = sp.left;
            padc = if sp.zeros then b'0' else b' ';
            rest = c ∷ rest;
          }
    of_digits [] w =
        scan c rest h.long h.minus h.nought c rest h.dot 0
          (take_number_width 0 [] c rest tt h.digit) sp.left sp.zeros
    of_digits (d ∷ digits) (nonzero, all) =
        let digit = all.0 in
        scan d (digits ++ c ∷ rest) (ground arith) (ground arith) nonzero c rest h.dot
          (number_of 0 (d ∷ digits)) (take_number_width 0 (d ∷ digits) c rest all h.digit) sp.left
          sp.zeros
