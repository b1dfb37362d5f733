-- ===== src/Printf/Number/Reversal.antt =====
-- The swapping loop of `PrintNum` in src/printf.c.
use mathlib.Core.List.{reverse}
use qcom_ipq_aux_loader.Base.{
  ℕ, zero, suc, ◌+◌, ◌-◌, ◌≤◌, ◌<◌, ◌≡◌, refl, List, [], ◌∷◌, ◌++◌, ◌&&◌, arith, length, get_or,
  set, length-append, leb, if◌then◌else◌,
}
use qcom_ipq_aux_loader.Base.Index.{
  length-set, get_or-set, get_or-append, length-reverse, get_or-reverse, get_or_ext,
}
use qcom_ipq_aux_loader.Printf.Number.{swap_loop}

length-swap_loop :
    (rounds begin end : ℕ) (buf : List ℕ) → length (swap_loop rounds begin end buf) ≡ length buf
unfolding swap_loop
length-swap_loop zero begin end buf = refl
length-swap_loop (suc rounds) begin end buf =
    let tmp = get_or buf begin 0 in
    let once = set buf begin (get_or buf end 0) in
    ground (
      arith,
      length-swap_loop rounds (begin + 1) (end - 1) (set once end tmp),
      length-set once end tmp,
      length-set buf begin (get_or buf end 0),
    )

-- The element at `i` after the loop.
get_or-swap_loop :
    (rounds begin end : ℕ) (buf : List ℕ) (i : ℕ)
    → end < length buf
    → end ≤ begin + rounds
    → get_or (swap_loop rounds begin end buf) i 0
      ≡ (if leb begin i && leb i end then get_or buf (begin + end - i) 0 else get_or buf i 0)
unfolding swap_loop
get_or-swap_loop zero begin end buf i inside enough = ground arith
get_or-swap_loop (suc rounds) begin end buf i inside enough =
    let tmp = get_or buf begin 0 in
    let once = set buf begin (get_or buf end 0) in
    ground (
      arith,
      get_or-swap_loop rounds (begin + 1) (end - 1) (set once end tmp) i,
      length-set once end tmp,
      length-set buf begin (get_or buf end 0),
      get_or-set 0 once end tmp i,
      get_or-set 0 buf begin (get_or buf end 0) i,
      get_or-set 0 once end tmp (begin + end - i),
      get_or-set 0 buf begin (get_or buf end 0) (begin + end - i),
    )

-- With a round for each element, the loop from the first to the last of `xs` reverses `xs` and
-- leaves what follows alone.
pub swap_loop-reverse :
    (rounds : ℕ) (xs ys : List ℕ)
    → length xs ≤ rounds
    → swap_loop rounds 0 (length xs - 1) (xs ++ ys) ≡ reverse xs ++ ys
swap_loop-reverse zero [] ys enough = unfold swap_loop in refl
swap_loop-reverse (suc rounds) [] ys enough = unfold swap_loop in refl
swap_loop-reverse rounds (x ∷ xs) ys enough = get_or_ext 0 _ _ same_length λ i lt. ground (
  arith,
  get_or-swap_loop rounds 0 (length xs) ((x ∷ xs) ++ ys) i,
  get_or-append 0 (x ∷ xs) ys (length xs - i),
  get_or-append 0 (x ∷ xs) ys i,
  get_or-append 0 (reverse (x ∷ xs)) ys i,
  get_or-reverse 0 (x ∷ xs) i,
  length-reverse (x ∷ xs),
  length-append (x ∷ xs) ys,
)
  where
    same_length :
        length (swap_loop rounds 0 (length (x ∷ xs) - 1) ((x ∷ xs) ++ ys))
        ≡ length (reverse (x ∷ xs) ++ ys)
    same_length = omega (
      arith,
      length-swap_loop rounds 0 (length (x ∷ xs) - 1) ((x ∷ xs) ++ ys),
      length-append (x ∷ xs) ys,
      length-append (reverse (x ∷ xs)) ys,
      length-reverse (x ∷ xs),
    )
