-- ===== src/Printf/Format/Progress.antt =====
-- The interpreter's loop and the length of the format.
use qcom_ipq_aux_loader.Base.{
  ℕ, zero, suc, ◌+◌, ◌-◌, ◌*◌, ◌^◌, ◌≤◌, ◌<◌, ◌≡◌, refl, Bool, true, false, Option, none, some,
  List, [], ◌∷◌, ◌||◌, ap, subst, u8, ◌==◌, if◌then◌else◌, arith, length, leb, Option-cases,
  Bool-cases, inl, inr,
}
use qcom_ipq_aux_loader.Printf.Number.{print_num, print_char, print_string}
use qcom_ipq_aux_loader.Printf.Format.{
  Arg, word, text, Out, done, undefined, lp_max_buf, output, take_number, accept, Directive,
  directive, in_buf, number, signed_number, character, string, convert, literal, lp_round, lp_print,
}

take_number-le : (n : ℕ) (s : List ℕ) → length (take_number n s).1 ≤ length s
unfolding take_number
take_number-le n [] = omega arith
take_number-le n (c ∷ s) = ground (arith, take_number-le (10 * n + (c - b'0')) s)

accept-le : (c : ℕ) (s : List ℕ) → length (accept c s).1 ≤ length s
unfolding accept
accept-le c [] = omega arith
accept-le c (d ∷ s) = ground arith

-- Reading a directive moves forward.
pub directive-le : (fmt : List ℕ) → length (directive fmt).rest ≤ length fmt
unfolding directive
directive-le fmt =
    let s₁ = (accept b'l' fmt).1 in
    let s₂ = (accept b'-' s₁).1 in
    let s₃ = (accept b'0' s₂).1 in
    let s₄ = (take_number 0 s₃).1 in
    let s₅ = (accept b'.' s₄).1 in
    ground (
      arith,
      accept-le b'l' fmt,
      accept-le b'-' s₁,
      accept-le b'0' s₂,
      take_number-le 0 s₃,
      accept-le b'.' s₄,
      take_number-le 0 s₅,
    )

-- So does the search for a `%`.
pub literal-le :
    (s : List ℕ) → (length (literal s).0 ≤ length s) × (length (literal s).1 ≤ length s)
unfolding literal
literal-le [] = omega arith
literal-le (c ∷ s) = ground (arith, literal-le s)

-- A conversion that succeeds has not left the buffer.
abbrev pub Fits : Option (List ℕ × List Arg) → Type 0
Fits none = Unit
Fits (some (piece, args)) = length piece ≤ lp_max_buf

in_buf-Fits : (args : List Arg) (o : Option (List ℕ)) → Fits (in_buf args o)
in_buf-Fits args none = tt
in_buf-Fits args (some s) = ground arith

number-Fits :
    (base : ℕ) (upcase : Bool) (d : Directive) (args : List Arg) → Fits (number base upcase d args)
unfolding number
number-Fits base upcase d (word num ∷ args) =
    in_buf-Fits args (print_num num base false d.width d.ladjust d.padc upcase)
number-Fits base upcase d (text s ∷ args) = tt
number-Fits base upcase d [] = tt

signed_number-Fits : (d : Directive) (args : List Arg) → Fits (signed_number d args)
unfolding signed_number
signed_number-Fits d (word num ∷ args) = elim (Bool-cases (leb (2 ^ 31) num)) [
  | inl negative ↦
      rw negative (in_buf-Fits args (print_num _ 10 true d.width d.ladjust d.padc false))
  | inr positive ↦
      rw positive (in_buf-Fits args (print_num _ 10 false d.width d.ladjust d.padc false))
]
signed_number-Fits d (text s ∷ args) = tt
signed_number-Fits d [] = tt

character-Fits : (d : Directive) (args : List Arg) → Fits (character d args)
unfolding character
character-Fits d (word c ∷ args) = in_buf-Fits args (some (print_char (u8 c) d.width d.ladjust))
character-Fits d (text s ∷ args) = tt
character-Fits d [] = tt

string-Fits : (d : Directive) (args : List Arg) → Fits (string d args)
unfolding string
string-Fits d (text s ∷ args) = in_buf-Fits args (some (print_string s d.width d.ladjust))
string-Fits d (word n ∷ args) = tt
string-Fits d [] = tt

-- A choice by a test.
if-Fits :
    (b : Bool) (x y : Option (List ℕ × List Arg)) → Fits x → Fits y → Fits (if b then x else y)
if-Fits true x y p q = p
if-Fits false x y p q = q

convert-Fits : (c : ℕ) (d : Directive) (args : List Arg) → Fits (convert c d args)
unfolding convert
convert-Fits c d args = if-Fits (c == b'b') _ _ (number-Fits 2 false d args) (
    if-Fits (c == b'd' || c == b'D') _ _ (signed_number-Fits d args) (
      if-Fits (c == b'o' || c == b'O') _ _ (number-Fits 8 false d args) (
        if-Fits (c == b'u' || c == b'U') _ _ (number-Fits 10 false d args) (
          if-Fits (c == b'x') _ _ (number-Fits 16 false d args) (
            if-Fits (c == b'X') _ _ (number-Fits 16 true d args) (
              if-Fits (c == b'c') _ _ (character-Fits d args)
                (if-Fits (c == b's') _ _ (string-Fits d args) (omega arith))))))))

-- A property of outcomes that every OUTPUT of at most `bound` characters keeps.
module _ (P : Out → Type 0) (bound : ℕ) (enough : lp_max_buf ≤ bound)
    (keeps : (s : List ℕ) (r : Out) → length s ≤ bound → P r → P (output s r))
    (at_done : P (done [])) (at_undefined : P undefined) where
  converted :
      (go_on : List ℕ → List Arg → Out) (c : ℕ) (d : Directive) (s : List ℕ) (args : List Arg)
      → ((args' : List Arg) → P (go_on s args'))
      → P (elim (convert c d args) [
        | none ↦ undefined
        | some (piece, args') ↦ output piece (go_on s args')
      ])
  converted go_on c d s args on = elim (Option-cases (convert c d args)) [
    | inl e ↦ rw e at_undefined
    | inr ((piece, args'), e) ↦
        let short : length piece ≤ lp_max_buf = subst Fits e (convert-Fits c d args) in
        rw e (keeps piece (go_on s args') (omega arith) (on args'))
  ]

  lp_round-keeps :
      (go_on : List ℕ → List Arg → Out) (fmt : List ℕ) (args : List Arg)
      → length fmt ≤ bound
      → ((s : List ℕ) (args' : List Arg) → length s < length fmt → P (go_on s args'))
      → P (lp_round go_on fmt args)
  unfolding lp_round
  lp_round-keeps go_on fmt args short on =
      keeps (literal fmt).0 _ (omega (arith, (literal-le fmt).0))
        (rest (literal fmt).1 (literal-le fmt).1)
    where
      at_directive :
          (fmt' : List ℕ)
          → length fmt' < length fmt
          → (s : List ℕ) → (directive fmt').rest ≡ s
          → P (elim s [
            | [] ↦ go_on [] args
            | c ∷ s ↦ elim (convert c (directive fmt') args) [
              | none ↦ undefined
              | some (piece, args') ↦ output piece (go_on s args')
            ]
          ])
      at_directive fmt' lt [] e = on [] args (omega arith)
      at_directive fmt' lt (c ∷ s) e =
          converted go_on c (directive fmt') s args
            λ args'. on s args' (omega (arith, directive-le fmt', ap length e))

      rest :
          (after : List ℕ)
          → length after ≤ length fmt
          → P (elim after [
            | [] ↦ output (0 ∷ []) (done [])
            | percent ∷ fmt' ↦ elim (directive fmt').rest [
              | [] ↦ go_on [] args
              | c ∷ s ↦ elim (convert c (directive fmt') args) [
                | none ↦ undefined
                | some (piece, args') ↦ output piece (go_on s args')
              ]
            ]
          ])
      rest [] le = keeps (0 ∷ []) (done []) (omega arith) at_done
      rest (percent ∷ fmt') le = at_directive fmt' (omega arith) (directive fmt').rest refl

  pub lp_print-keeps :
      (rounds : ℕ) (fmt : List ℕ) (args : List Arg)
      → length fmt ≤ bound
      → length fmt < rounds
      → P (lp_print rounds fmt args)
  unfolding lp_print
  lp_print-keeps zero fmt args short fuel = elim fuel [ ]
  lp_print-keeps (suc rounds) fmt args short fuel =
      lp_round-keeps (lp_print rounds) fmt args short
        λ s args' lt. lp_print-keeps rounds s args' (omega arith) (omega arith)
