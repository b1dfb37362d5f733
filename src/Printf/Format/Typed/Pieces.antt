-- ===== src/Printf/Format/Typed/Pieces.antt =====
-- The pieces that accepted conversions yield.
use Prim.Native.Nat.{max}
use qcom_ipq_aux_loader.Base.{
  ℕ, ◌^◌, ◌≤◌, ◌<◌, ◌≡◌, refl, Bool, true, false, Option, some, List, [], ◌∷◌, ◌||◌, arith, length,
  u8, sub32, leb, ◌==◌, if◌then◌else◌, Bool-cases, inl, inr, All, subst,
}
use qcom_ipq_aux_loader.Printf.Number.{print_char, print_string}
use qcom_ipq_aux_loader.Printf.Format.{
  Arg, word, text, lp_max_buf, Directive, in_buf, number, signed_number, character, string, convert,
}
use qcom_ipq_aux_loader.Printf.Format.Typed.{IsWord, take_word, take_text, accepts}
use qcom_ipq_aux_loader.Printf.Format.Typed.Width.{
  print_num-fits, base-cases, length-print_string, length-print_char,
}

-- A converted piece that fits, and the arguments that are left.
abbrev pub Converts : List Arg → Option (List ℕ × List Arg) → Type 0
Converts args o =
    (piece : List ℕ) × (o ≡ some (piece, args)) × (length piece ≤ lp_max_buf) × All IsWord args

in_buf-Converts :
    (args : List Arg) (o : Option (List ℕ)) (s : List ℕ)
    → o ≡ some s
    → length s ≤ lp_max_buf
    → All IsWord args
    → Converts args (in_buf args o)
in_buf-Converts args o s e le words = (s, rw e (ground arith), le, words)

take_word-inv :
    (d : Directive) (args args' : List Arg)
    → take_word d args ≡ some args'
    → (n : ℕ) × (args ≡ word n ∷ args') × (d.width ≤ lp_max_buf)
unfolding take_word
take_word-inv d (word n ∷ args) args' e = (n, ground arith, ground arith)
take_word-inv d (text s ∷ args) args' e = cc
take_word-inv d [] args' e = cc

take_text-inv :
    (d : Directive) (args args' : List Arg)
    → take_text d args ≡ some args'
    → (s : List ℕ) × (args ≡ text s ∷ args') × (max d.width (length s) ≤ lp_max_buf)
unfolding take_text
take_text-inv d (text s ∷ args) args' e = (s, ground arith, ground arith)
take_text-inv d (word n ∷ args) args' e = cc
take_text-inv d [] args' e = cc

module _ (d : Directive) (args args' : List Arg) (words : All IsWord args) where
  number-Converts :
      (base : ℕ) (upcase : Bool)
      → take_word d args ≡ some args'
      → Converts args' (number base upcase d args)
  number-Converts base upcase e =
      let (n, shape, w) = take_word-inv d args args' e in
      let all : All IsWord (word n ∷ args') = subst (All IsWord) shape words in
      let (s, printed, le) =
        print_num-fits n base false d.width d.ladjust d.padc upcase all.0 w (base-cases base) in
      rw shape (unfold number in in_buf-Converts args' _ s printed le all.1)

  signed-Converts : take_word d args ≡ some args' → Converts args' (signed_number d args)
  signed-Converts e =
      let (n, shape, w) = take_word-inv d args args' e in
      let all : All IsWord (word n ∷ args') = subst (All IsWord) shape words in
      let fits = λ (m : ℕ) (negative : Bool) (lt : m < 2 ^ 32).
        print_num-fits m 10 negative d.width d.ladjust d.padc false lt w (base-cases 10) in
      rw shape (
        unfold signed_number in
        elim (Bool-cases (leb (2 ^ 31) n)) [
          | inl below ↦
              let (s, printed, le) = fits (sub32 0 n) true (omega arith) in
              rw below (in_buf-Converts args' _ s printed le all.1)
          | inr above ↦
              let (s, printed, le) = fits n false all.0 in
              rw above (in_buf-Converts args' _ s printed le all.1)
        ])

  character-Converts : take_word d args ≡ some args' → Converts args' (character d args)
  character-Converts e =
      let (n, shape, w) = take_word-inv d args args' e in
      let all : All IsWord (word n ∷ args') = subst (All IsWord) shape words in
      let s = print_char (u8 n) d.width d.ladjust in
      rw shape (
        unfold character in
        in_buf-Converts args' (some s) s refl
          (omega (arith, length-print_char (u8 n) d.width d.ladjust)) all.1)

  string-Converts : take_text d args ≡ some args' → Converts args' (string d args)
  string-Converts e =
      let (t, shape, w) = take_text-inv d args args' e in
      let all : All IsWord (text t ∷ args') = subst (All IsWord) shape words in
      let s = print_string t d.width d.ladjust in
      rw shape (
        unfold string in
        in_buf-Converts args' (some s) s refl
          (omega (arith, length-print_string t d.width d.ladjust)) all.1)

  -- The two chains of tests side by side.
  lockstep :
      (b : Bool) {x y : Option (List Arg)} {u v : Option (List ℕ × List Arg)}
      → (x ≡ some args' → Converts args' u)
      → (y ≡ some args' → Converts args' v)
      → (if b then x else y) ≡ some args'
      → Converts args' (if b then u else v)
  lockstep true p q e = p e
  lockstep false p q e = q e

  pub convert-Converts : (c : ℕ) → accepts c d args ≡ some args' → Converts args' (convert c d args)
  unfolding accepts convert
  convert-Converts c = lockstep (c == b'b') (number-Converts 2 false) (
      lockstep (c == b'd' || c == b'D') signed-Converts (
        lockstep (c == b'o' || c == b'O') (number-Converts 8 false) (
          lockstep (c == b'u' || c == b'U') (number-Converts 10 false) (
            lockstep (c == b'x') (number-Converts 16 false) (
              lockstep (c == b'X') (number-Converts 16 true) (
                lockstep (c == b'c') character-Converts (
                  lockstep (c == b's') string-Converts (λ e. (
                    c ∷ [],
                    ground arith,
                    omega arith,
                    subst (All IsWord) (ground arith) words,
                  )))))))))
