-- ===== src/Base/Index.antt =====
-- Lists by their elements: what stands at an index after a write, an append or a reversal.
use mathlib.Core.List.{reverse, reverse-cons}
use native.Mathlib.Decide.{dec_lt}
use qcom_ipq_aux_loader.Base.{
  ℕ, zero, suc, ◌-◌, ◌<◌, ◌≡◌, refl, ap, ◌∙◌, List, [], ◌∷◌, ◌++◌, arith, length, get_or, set,
  replicate, length-append, ltb, lt→ltb, le→ltb, ◌==◌, if◌then◌else◌,
}

module _ {ℓ} {A : Type ℓ} where
  pub length-set : (xs : List A) (i : ℕ) (v : A) → length (set xs i v) ≡ length xs
  length-set [] i v = refl
  length-set (x ∷ xs) zero v = refl
  length-set (x ∷ xs) (suc i) v = ap suc (length-set xs i v)

  pub get_or-set :
      (d : A) (xs : List A) (j : ℕ) (v : A) (i : ℕ)
      → j < length xs
      → get_or (set xs j v) i d ≡ (if i == j then v else get_or xs i d)
  get_or-set d [] j v i h = elim h [ ]
  get_or-set d (x ∷ xs) zero v zero h = refl
  get_or-set d (x ∷ xs) zero v (suc i) h = ground arith
  get_or-set d (x ∷ xs) (suc j) v zero h = ground arith
  get_or-set d (x ∷ xs) (suc j) v (suc i) h = ground (arith, get_or-set d xs j v i)

  pub get_or-append :
      (d : A) (xs ys : List A) (i : ℕ)
      → get_or (xs ++ ys) i d
        ≡ (if ltb i (length xs) then get_or xs i d else get_or ys (i - length xs) d)
  get_or-append d [] ys i = ground arith
  get_or-append d (x ∷ xs) ys zero = ground arith
  get_or-append d (x ∷ xs) ys (suc i) = ground (arith, get_or-append d xs ys i)

  pub length-reverse : (xs : List A) → length (reverse xs) ≡ length xs
  length-reverse [] = refl
  length-reverse (x ∷ xs) =
      omega (
        arith,
        ap length (reverse-cons x xs),
        length-append (reverse xs) (x ∷ []),
        length-reverse xs,
      )

  pub get_or-reverse :
      (d : A) (xs : List A) (i : ℕ)
      → i < length xs
      → get_or (reverse xs) i d ≡ get_or xs (length xs - 1 - i) d
  get_or-reverse d [] i h = elim h [ ]
  get_or-reverse d (x ∷ xs) i h =
      rw (reverse-cons x xs, get_or-append d (reverse xs) (x ∷ []) i, length-reverse xs)
        (elim (dec_lt i (length xs)) [
          | yes inside ↦
              let at : suc (length xs) - 1 - i ≡ suc (length xs - 1 - i) = omega arith in
              rw (at, lt→ltb i (length xs) inside) (get_or-reverse d xs i inside)
          | no last ↦
              let at : suc (length xs) - 1 - i ≡ 0 = omega arith in
              let first : i - length xs ≡ 0 = omega arith in
              rw (at, le→ltb i (length xs) (omega arith), first)
        ])

  -- A list is determined by its length and its elements.
  pub get_or_ext :
      (d : A) (xs ys : List A)
      → length xs ≡ length ys
      → ((i : ℕ) → i < length xs → get_or xs i d ≡ get_or ys i d)
      → xs ≡ ys
  get_or_ext d [] [] e h = refl
  get_or_ext d [] (y ∷ ys) e h = absurd (omega arith)
  get_or_ext d (x ∷ xs) [] e h = absurd (omega arith)
  get_or_ext d (x ∷ xs) (y ∷ ys) e h =
      ground (arith, h 0, get_or_ext d xs ys (omega arith) (λ i lt. h (suc i) (omega arith)))

  pub reverse-replicate : (n : ℕ) (a : A) → reverse (replicate n a) ≡ replicate n a
  reverse-replicate zero a = refl
  reverse-replicate (suc n) a =
      reverse-cons a (replicate n a)
      ∙ ap (λ xs. xs ++ a ∷ []) (reverse-replicate n a)
      ∙ replicate-snoc n a
    where
      replicate-snoc : (n : ℕ) (a : A) → replicate n a ++ a ∷ [] ≡ a ∷ replicate n a
      replicate-snoc zero a = refl
      replicate-snoc (suc n) a = ap (◌∷◌ a) (replicate-snoc n a)
