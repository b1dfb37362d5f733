-- ===== src/Printf/Format/Typed.antt =====
-- Formats whose arguments fit.
pub mod Width
pub mod Pieces
pub mod Returns
use Prim.Native.Nat.{max}
use qcom_ipq_aux_loader.Base.{
  ℕ, zero, suc, ◌^◌, ◌<◌, Bool, true, false, Option, none, some, List, [], ◌∷◌, ◌&&◌, ◌||◌, length,
  leb, ◌==◌, if◌then◌else◌,
}
use qcom_ipq_aux_loader.Printf.Format.{
  Arg, word, text, lp_max_buf, Directive, accept, take_number, directive, literal,
}

abbrev pub IsWord : Arg → Type 0
IsWord (word n) = n < 2 ^ 32
IsWord (text s) = Unit

-- The arguments left behind a conversion, if the first has its type and its field fits `buf`.
unfoldable pub take_word : Directive → List Arg → Option (List Arg)
take_word d (word n ∷ args) = if leb d.width lp_max_buf then some args else none
take_word d (text s ∷ args) = none
take_word d [] = none

unfoldable pub take_text : Directive → List Arg → Option (List Arg)
take_text d (text s ∷ args) = if leb (max d.width (length s)) lp_max_buf then some args else none
take_text d (word n ∷ args) = none
take_text d [] = none

unfoldable pub accepts : ℕ → Directive → List Arg → Option (List Arg)
accepts c d args =
    if c == b'b'
    then take_word d args
    else if c == b'd' || c == b'D'
    then take_word d args
    else if c == b'o' || c == b'O'
    then take_word d args
    else if c == b'u' || c == b'U'
    then take_word d args
    else if c == b'x'
    then take_word d args
    else if c == b'X'
    then take_word d args
    else if c == b'c'
    then take_word d args
    else if c == b's'
    then take_text d args
    else some args

-- One round of the interpreter's loop, on what it accepts alone.
unfoldable pub typed_round : (List ℕ → List Arg → Bool) → List ℕ → List Arg → Bool
typed_round go_on fmt args =
    let (before, after) = literal fmt in
    leb (length before) lp_max_buf && (elim after [
      | [] ↦ true
      | percent ∷ fmt' ↦ elim (directive fmt').rest [
        | [] ↦ go_on [] args
        | c ∷ s ↦ elim (accepts c (directive fmt') args) [
          | none ↦ false
          | some args' ↦ go_on s args'
        ]
      ]
    ])

unfoldable pub typed_rounds : ℕ → List ℕ → List Arg → Bool
typed_rounds zero fmt args = false
typed_rounds (suc rounds) fmt args = typed_round (typed_rounds rounds) fmt args

-- Each conversion of the format has an argument of its type, and each field and each text between
-- conversions is of at most 256 characters.
unfoldable pub typed : List ℕ → List Arg → Bool
unfolding typed_rounds typed_round accepts take_word take_text literal directive accept take_number
typed fmt args = typed_rounds (suc (length fmt)) fmt args
