-- ===== src/Printf/Number/Padding.antt =====
-- The field that `PrintNum` leaves in its buffer.
use Prim.Native.Nat.{max}
use mathlib.Core.List.{reverse, reverse-append, append-nil}
use qcom_ipq_aux_loader.Base.{
  ℕ, suc, ◌+◌, ◌-◌, ◌≡◌, refl, ◌∙◌, ap, subst, Bool, true, false, some, List, [], ◌∷◌, ◌++◌, ◌&&◌,
  arith, length, replicate, length-append, ◌==◌, if◌then◌else◌, Bool-cases, ==_iff, inl, inr,
}
use qcom_ipq_aux_loader.Base.Index.{length-reverse, reverse-replicate}
use qcom_ipq_aux_loader.Printf.Number.{swap_loop, number_digits, pad, print_num}
use qcom_ipq_aux_loader.Printf.Number.Reversal.{swap_loop-reverse}

-- A numeral, highest digit first, with its sign.
abbrev pub signed : Bool → List ℕ → List ℕ
signed true digits = b'-' ∷ reverse digits
signed false digits = reverse digits

-- The numeral in a field of at least `width` characters: blanks behind it if it is adjusted to the
-- left, and otherwise `padc` before it, where zeros go between the sign and the digits.
abbrev pub field : List ℕ → Bool → ℕ → Bool → ℕ → List ℕ
field digits negative width ladjust padc =
    let gap = width - length (signed negative digits) in
    if ladjust
    then signed negative digits ++ replicate gap b' '
    else if negative && (padc == b'0')
    then b'-' ∷ replicate gap b'0' ++ reverse digits
    else replicate gap padc ++ signed negative digits

reverse_front :
    (xs ys : List ℕ) (k : ℕ)
    → k ≡ length xs
    → swap_loop (length (xs ++ ys)) 0 (k - 1) (xs ++ ys) ≡ reverse xs ++ ys
reverse_front xs ys k e =
    rw e (swap_loop-reverse (length (xs ++ ys)) xs ys (omega (arith, length-append xs ys)))

reverse_whole : (xs : List ℕ) → swap_loop (length xs) 0 (length xs - 1) xs ≡ reverse xs
reverse_whole xs =
    subst (λ t. swap_loop (length t) 0 (length xs - 1) t ≡ reverse xs) (append-nil xs)
      (reverse_front xs [] (length xs) refl ∙ append-nil (reverse xs))

-- What the loop makes of the buffer, by its parts.
reverse_parts :
    (digits : List ℕ) (n c : ℕ)
    → reverse (digits ++ replicate n c) ≡ replicate n c ++ reverse digits
reverse_parts digits n c =
    reverse-append digits (replicate n c) ∙ ap (λ t. t ++ reverse digits) (reverse-replicate n c)

pub max-sub : (a b : ℕ) → max a b - b ≡ a - b
max-sub a b = omega arith

length-signed : (digits : List ℕ) → length (digits ++ b'-' ∷ []) ≡ suc (length (reverse digits))
length-signed digits = omega (arith, length-append digits (b'-' ∷ []), length-reverse digits)

-- With the digits that the base gives, `PrintNum` leaves the field of the number.
pub print_num-field :
    (u base : ℕ) (negative : Bool) (width : ℕ) (ladjust : Bool) (padc : ℕ) (upcase : Bool)
    (digits : List ℕ)
    → number_digits u base upcase ≡ some digits
    → print_num u base negative width ladjust padc upcase
      ≡ some (field digits negative width ladjust padc)
unfolding print_num pad
print_num-field u base true width true padc upcase digits e =
    rw (e, print_num)
      (rw
        (
          reverse_front (digits ++ b'-' ∷ []) _ (length digits + 1)
              (omega (arith, length-append digits (b'-' ∷ []))),
          max-sub,
          length-signed,
          reverse-append,
        )
        refl)
print_num-field u base true width false padc upcase digits e =
    rw (e, print_num, reverse_whole)
      (ap some (elim (Bool-cases (padc == b'0')) [
        | inl zero_padded ↦
            let is_zero : padc ≡ b'0' = (==_iff padc b'0').0 zero_padded in
            rw (is_zero, pad) (rw (reverse-append, reverse_parts, max-sub, length-signed) refl)
        | inr other ↦
            rw (other, pad) (rw (reverse_parts, max-sub, length-signed, reverse-append) refl)
      ]))
print_num-field u base false width true padc upcase digits e =
    rw (e, print_num)
      (rw (reverse_front digits _ (length digits + 0) (omega arith), max-sub, length-reverse) refl)
print_num-field u base false width false padc upcase digits e =
    rw (e, print_num, reverse_whole) (rw (reverse_parts, max-sub, length-reverse) refl)
