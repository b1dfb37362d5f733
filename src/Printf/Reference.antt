-- ===== src/Printf/Reference.antt =====
-- What `printf` of src/printf.c is meant to print, for formats whose conversions are %d, %u, %x,
-- %X, %c and %s with the flags `-` and `0` and a width.
pub mod Numerals
pub mod Directives
pub mod Agrees
use qcom_ipq_aux_loader.Base.{
  ℕ, zero, suc, ◌+◌, ◌-◌, ◌*◌, ◌/◌, ◌%◌, ◌^◌, ◌≡◌, ◌≢◌, Bool, true, false, Option, none, some, List,
  [], ◌∷◌, ◌++◌, ◌&&◌, not, length, replicate, All, u8, leb, ltb, ◌==◌, if◌then◌else◌,
}
use qcom_ipq_aux_loader.Printf.Number.Padding.{field}
use qcom_ipq_aux_loader.Printf.Format.{
  Arg, word, text, lp_max_buf, is_digit, is_terminator, with_returns,
}

pub data Kind : Type 0 where
  decimal unsigned lower_hex upper_hex a_character a_string : Kind

-- What stands before the letter; `digits` are those of the width.
pub record Spec : Type 0 where
  pub left : Bool
  pub zeros : Bool
  pub digits : List ℕ

-- A format: texts, with a conversion between each two.
pub data Template : Type 0 where
  ends : List ℕ → Template
  shows : List ℕ → Spec → Kind → Template → Template

abbrev pub letter : Kind → ℕ
letter decimal = b'd'
letter unsigned = b'u'
letter lower_hex = b'x'
letter upper_hex = b'X'
letter a_character = b'c'
letter a_string = b's'

-- The flags and the width, before the rest of the format.
abbrev pub flags : Spec → List ℕ → List ℕ
flags sp rest =
    let behind = if sp.zeros then b'0' ∷ sp.digits ++ rest else sp.digits ++ rest in
    if sp.left then b'-' ∷ behind else behind

-- The format as the text that `printf` is given.
abbrev pub format : Template → List ℕ
format (ends s) = s
format (shows s sp k t) = s ++ b'%' ∷ flags sp (letter k ∷ format t)

-- The number that a text of digits shows, behind a number.
abbrev pub number_of : ℕ → List ℕ → ℕ
number_of n [] = n
number_of n (c ∷ s) = number_of (10 * n + (c - b'0')) s

-- A width has no zero in front, which would be the flag.
abbrev pub IsWidth : List ℕ → Type 0
IsWidth [] = Unit
IsWidth (c ∷ s) = ((c == b'0') ≡ false) × All (λ d. is_digit d ≡ true) (c ∷ s)

abbrev pub IsText : List ℕ → Type 0
IsText = All (λ c. (c == b'%') ≡ false)

abbrev pub IsTemplate : Template → Type 0
IsTemplate (ends s) = IsText s
IsTemplate (shows s sp k t) = IsText s × (IsWidth sp.digits × IsTemplate t)

-- The character of a digit, in hexadecimal with letters of one case.
unfoldable pub digit_char : Bool → ℕ → ℕ
digit_char upcase d = if ltb d 10 then b'0' + d else (if upcase then b'A' else b'a') + (d - 10)

-- The numeral of a number, lowest digit first, up to a number of digits.
abbrev pub numeral : Bool → ℕ → ℕ → ℕ → List ℕ
numeral upcase base zero n = []
numeral upcase base (suc digits) n =
    let rest = numeral upcase base digits (n / base) in
    digit_char upcase (n % base) ∷ (if n / base == 0 then [] else rest)

-- A text in a field of blanks.
abbrev pub in_blanks : Bool → ℕ → List ℕ → List ℕ
in_blanks left width s =
    let blanks = replicate (width - length s) b' ' in if left then s ++ blanks else blanks ++ s

abbrev pub number_field : Spec → Bool → List ℕ → List ℕ
number_field sp negative digits =
    field digits negative (number_of 0 sp.digits) sp.left (if sp.zeros then b'0' else b' ')

-- What an argument looks like; words of two's complement for %d. Arguments of other types are
-- not shown.
abbrev pub show_arg : Spec → Kind → Arg → Option (List ℕ)
show_arg sp decimal (word n) = some (
    if leb (2 ^ 31) n
    then number_field sp true (numeral false 10 10 (2 ^ 32 - n))
    else number_field sp false (numeral false 10 10 n))
show_arg sp unsigned (word n) = some (number_field sp false (numeral false 10 10 n))
show_arg sp lower_hex (word n) = some (number_field sp false (numeral false 16 8 n))
show_arg sp upper_hex (word n) = some (number_field sp false (numeral true 16 8 n))
show_arg sp a_character (word c) = some (in_blanks sp.left (number_of 0 sp.digits) (u8 c ∷ []))
show_arg sp a_character (text s) = none
show_arg sp a_string (text s) = some (in_blanks sp.left (number_of 0 sp.digits) s)
show_arg sp a_string (word n) = none
show_arg sp decimal (text s) = none
show_arg sp unsigned (text s) = none
show_arg sp lower_hex (text s) = none
show_arg sp upper_hex (text s) = none

-- A piece that the buffer holds, and that is not a lone NUL.
abbrev pub fits : List ℕ → Bool
fits s = leb (length s) lp_max_buf && not (is_terminator s)

abbrev pub joined : List ℕ → Option (List ℕ) → Option (List ℕ) → Option (List ℕ)
joined s none rest = none
joined s (some piece) none = none
joined s (some piece) (some rest) =
    if fits s && fits piece then some (s ++ (piece ++ rest)) else none

-- What is to be printed, unless an argument is missing or of another type, or a piece does not fit.
abbrev pub render : Template → List Arg → Option (List ℕ)
render (ends s) args = if fits s then some s else none
render (shows s sp k t) [] = none
render (shows s sp k t) (a ∷ args) = joined s (show_arg sp k a) (render t args)
