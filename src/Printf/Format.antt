-- ===== src/Printf/Format.antt =====
-- `lp_Print` and `printf_output`: the format interpreter, up to the bytes that `serial_putc` is
-- called with. `int` and `long int` have both 32 bits, so the `l` flag changes nothing, and the
-- precision is read past and never used.
pub mod Reading
pub mod Progress
pub mod Typed
use qcom_ipq_aux_loader.Base.{
  ℕ, zero, suc, ◌+◌, ◌-◌, ◌*◌, ◌^◌, Bool, true, false, Option, none, some, List, [], ◌∷◌, ◌++◌,
  ◌&&◌, ◌||◌, length, codes, u8, sub32, leb, ◌==◌, if◌then◌else◌,
}
use qcom_ipq_aux_loader.Printf.Number.{print_num, print_char, print_string}

-- What `va_arg` takes: a word, or a pointer to a text.
pub data Arg : Type 0 where
  word : ℕ → Arg
  text : List ℕ → Arg

pub data Out : Type 0 where
  -- returned, and these bytes went to `serial_putc`
  done : List ℕ → Out
  -- the same, and then the fatal message and an endless loop
  fatal : List ℕ → Out
  -- undefined in C: a write past the end of `buf`, or a missing argument
  undefined : Out
  out_of_fuel : Out

-- LP_MAX_BUF
abbrev pub lp_max_buf : ℕ
lp_max_buf = 256

abbrev pub fatal_msg : List ℕ
fatal_msg = codes "fatal error in lp_Print!"

-- `printf_output`: a carriage return behind each newline.
abbrev pub with_returns : List ℕ → List ℕ
with_returns [] = []
with_returns (c ∷ s) = if c == 10 then c ∷ 13 ∷ with_returns s else c ∷ with_returns s

abbrev pub is_terminator : List ℕ → Bool
is_terminator [] = false
is_terminator (c ∷ []) = c == 0
is_terminator (c ∷ d ∷ s) = false

unfoldable pub printf_output : List ℕ → List ℕ
printf_output s = if is_terminator s then [] else with_returns s

abbrev pub prepend : List ℕ → Out → Out
prepend s (done t) = done (s ++ t)
prepend s (fatal t) = fatal (s ++ t)
prepend s undefined = undefined
prepend s out_of_fuel = out_of_fuel

-- OUTPUT, and what follows it.
unfoldable pub output : List ℕ → Out → Out
output s rest =
    if leb (length s) lp_max_buf
    then prepend (printf_output s) rest
    else fatal (printf_output fatal_msg)

abbrev pub is_digit : ℕ → Bool
is_digit c = leb b'0' c && leb c b'9'

-- The loop that reads a width or a precision, an `int`: for a number that one holds.
unfoldable pub take_number : ℕ → List ℕ → ℕ × List ℕ
take_number n [] = (n, [])
take_number n (c ∷ s) = if is_digit c then take_number (10 * n + (c - b'0')) s else (n, c ∷ s)

unfoldable pub accept : ℕ → List ℕ → Bool × List ℕ
accept c [] = (false, [])
accept c (d ∷ s) = if d == c then (true, s) else (false, d ∷ s)

pub record Directive : Type 0 where
  pub width : ℕ
  pub ladjust : Bool
  pub padc : ℕ
  pub rest : List ℕ

-- What stands between the `%` and the conversion character.
unfoldable pub directive : List ℕ → Directive
directive fmt =
    let (long, s₁) = accept b'l' fmt in
    let (ladjust, s₂) = accept b'-' s₁ in
    let (zero_padded, s₃) = accept b'0' s₂ in
    let (width, s₄) = take_number 0 s₃ in
    let (dot, s₅) = accept b'.' s₄ in
    record {
      width = width;
      ladjust = ladjust;
      padc = if zero_padded then b'0' else b' ';
      rest = if dot then (take_number 0 s₅).1 else s₅;
    }

-- A converted piece, if the buffer holds it.
abbrev pub in_buf : List Arg → Option (List ℕ) → Option (List ℕ × List Arg)
in_buf args none = none
in_buf args (some s) = if leb (length s) lp_max_buf then some (s, args) else none

unfoldable pub number : ℕ → Bool → Directive → List Arg → Option (List ℕ × List Arg)
number base upcase d (word num ∷ args) =
    in_buf args (print_num num base false d.width d.ladjust d.padc upcase)
number base upcase d (text s ∷ args) = none
number base upcase d [] = none

-- A negative number is negated, with wrap-around for the smallest.
unfoldable pub signed_number : Directive → List Arg → Option (List ℕ × List Arg)
signed_number d (word num ∷ args) =
    if leb (2 ^ 31) num
    then in_buf args (print_num (sub32 0 num) 10 true d.width d.ladjust d.padc false)
    else in_buf args (print_num num 10 false d.width d.ladjust d.padc false)
signed_number d (text s ∷ args) = none
signed_number d [] = none

unfoldable pub character : Directive → List Arg → Option (List ℕ × List Arg)
character d (word c ∷ args) = in_buf args (some (print_char (u8 c) d.width d.ladjust))
character d (text s ∷ args) = none
character d [] = none

unfoldable pub string : Directive → List Arg → Option (List ℕ × List Arg)
string d (text s ∷ args) = in_buf args (some (print_string s d.width d.ladjust))
string d (word n ∷ args) = none
string d [] = none

-- `switch (*fmt)`
unfoldable pub convert : ℕ → Directive → List Arg → Option (List ℕ × List Arg)
convert c d args =
    if c == b'b'
    then number 2 false d args
    else if c == b'd' || c == b'D'
    then signed_number d args
    else if c == b'o' || c == b'O'
    then number 8 false d args
    else if c == b'u' || c == b'U'
    then number 10 false d args
    else if c == b'x'
    then number 16 false d args
    else if c == b'X'
    then number 16 true d args
    else if c == b'c'
    then character d args
    else if c == b's'
    then string d args
    else some (c ∷ [], args)

-- The text before the next `%`, and what follows from there.
unfoldable pub literal : List ℕ → List ℕ × List ℕ
literal [] = ([], [])
literal (c ∷ s) =
    let (before, after) = literal s in if c == b'%' then ([], c ∷ s) else (c ∷ before, after)

-- One round of `for(;;)`, given how to go on.
unfoldable pub lp_round : (List ℕ → List Arg → Out) → List ℕ → List Arg → Out
lp_round go_on fmt args =
    let (before, after) = literal fmt in
    output before (elim after [
      | [] ↦ output (0 ∷ []) (done [])
      | percent ∷ fmt' ↦
          let d = directive fmt' in
          elim d.rest [
            | [] ↦ go_on [] args
            | c ∷ s ↦ elim (convert c d args) [
              | none ↦ undefined
              | some (piece, args') ↦ output piece (go_on s args')
            ]
          ]
    ])

unfoldable pub lp_print : ℕ → List ℕ → List Arg → Out
lp_print zero fmt args = out_of_fuel
lp_print (suc rounds) fmt args = lp_round (lp_print rounds) fmt args

-- `printf(fmt, ...)`; each round but the last takes a `%` from the format.
unfoldable pub printf : List ℕ → List Arg → Out
printf fmt args = lp_print (suc (length fmt)) fmt args
