-- ===== src/Printf/Format/Typed/Returns.antt =====
-- `printf` of src/printf.c on a typed format.
use qcom_ipq_aux_loader.Base.{
  ℕ, zero, suc, ◌≤◌, ◌≡◌, refl, Bool, true, false, none, some, List, [], ◌∷◌, ◌++◌, arith, length,
  leb→le, and-eq-true, Option-cases, inl, inr, All,
}
use qcom_ipq_aux_loader.Printf.Format.{
  Arg, Out, done, undefined, lp_max_buf, printf_output, output, Directive, directive, convert,
  literal, lp_round, lp_print, printf,
}
use qcom_ipq_aux_loader.Printf.Format.Typed.{IsWord, accepts, typed_round, typed_rounds, typed}
use qcom_ipq_aux_loader.Printf.Format.Typed.Pieces.{convert-Converts}

abbrev pub Done : Out → Type 0
Done o = (t : List ℕ) × (o ≡ done t)

output-Done : (s : List ℕ) (r : Out) → length s ≤ lp_max_buf → Done r → Done (output s r)
unfolding output
output-Done s r short (t, e) = (printf_output s ++ t, rw e (ground arith))

module _ (go_on : List ℕ → List Arg → Out) (check : List ℕ → List Arg → Bool)
    (sound : (s : List ℕ) (args : List Arg)
      → check s args ≡ true
      → All IsWord args
      → Done (go_on s args)) where
  at_character :
      (c : ℕ) (d : Directive) (s : List ℕ) (args : List Arg)
      → All IsWord args
      → (elim (accepts c d args) [ none ↦ false | some args' ↦ check s args' ]) ≡ true
      → Done (elim (convert c d args) [
        | none ↦ undefined
        | some (piece, args') ↦ output piece (go_on s args')
      ])
  at_character c d s args words h = elim (Option-cases (accepts c d args)) [
    | inl e ↦ cc (rw e at h)
    | inr (args', e) ↦
        let (piece, converted, le, words') = convert-Converts d args args' words c e in
        rw converted (output-Done piece (go_on s args') le (sound s args' (rw e at h) words'))
  ]

  at_directive :
      (d : Directive) (args : List Arg) (s : List ℕ)
      → All IsWord args
      → (elim s [
        | [] ↦ check [] args
        | c ∷ s ↦ elim (accepts c d args) [ none ↦ false | some args' ↦ check s args' ]
      ])
        ≡ true
      → Done (elim s [
        | [] ↦ go_on [] args
        | c ∷ s ↦ elim (convert c d args) [
          | none ↦ undefined
          | some (piece, args') ↦ output piece (go_on s args')
        ]
      ])
  at_directive d args [] words h = sound [] args h words
  at_directive d args (c ∷ s) words h = at_character c d s args words h

  rest :
      (after : List ℕ) (args : List Arg)
      → All IsWord args
      → (elim after [
        | [] ↦ true
        | percent ∷ fmt' ↦ elim (directive fmt').rest [
          | [] ↦ check [] args
          | c ∷ s ↦ elim (accepts c (directive fmt') args) [
            | none ↦ false
            | some args' ↦ check s args'
          ]
        ]
      ])
        ≡ true
      → Done (elim after [
        | [] ↦ output (0 ∷ []) (done [])
        | percent ∷ fmt' ↦ elim (directive fmt').rest [
          | [] ↦ go_on [] args
          | c ∷ s ↦ elim (convert c (directive fmt') args) [
            | none ↦ undefined
            | some (piece, args') ↦ output piece (go_on s args')
          ]
        ]
      ])
  rest [] args words h = output-Done (0 ∷ []) (done []) (omega arith) ([], refl)
  rest (percent ∷ fmt') args words h =
      at_directive (directive fmt') args (directive fmt').rest words h

  lp_round-Done :
      (fmt : List ℕ) (args : List Arg)
      → All IsWord args
      → typed_round check fmt args ≡ true
      → Done (lp_round go_on fmt args)
  unfolding lp_round typed_round
  lp_round-Done fmt args words h =
      let (short, follows) = and-eq-true _ _ h in
      output-Done (literal fmt).0 _ (leb→le _ _ short) (rest (literal fmt).1 args words follows)

lp_print-Done :
    (rounds : ℕ) (fmt : List ℕ) (args : List Arg)
    → typed_rounds rounds fmt args ≡ true
    → All IsWord args
    → Done (lp_print rounds fmt args)
unfolding lp_print typed_rounds
lp_print-Done zero fmt args h words = cc
lp_print-Done (suc rounds) fmt args h words =
    lp_round-Done (lp_print rounds) (typed_rounds rounds) (lp_print-Done rounds) fmt args words h

-- A call whose arguments fit the format, as `typed` checks, with words of 32 bits, returns: it
-- meets neither undefined behaviour nor the fatal message.
pub printf-Done :
    (fmt : List ℕ) (args : List Arg)
    → typed fmt args ≡ true
    → All IsWord args
    → (t : List ℕ) × (printf fmt args ≡ done t)
unfolding printf
printf-Done fmt args h words = lp_print-Done (suc (length fmt)) fmt args (unfold typed in h) words
