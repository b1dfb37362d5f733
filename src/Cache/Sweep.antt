-- ===== src/Cache/Sweep.antt =====
-- The loops of src/cpu.c over a cache level: each of its lines once.
use mathlib.Core.List.{map}
use qcom_ipq_aux_loader.Base.{
  ℕ, zero, suc, ◌+◌, ◌*◌, ◌^◌, ◌<◌, ◌≤◌, ◌≡◌, refl, ◌⊎◌, ap, List, [], ◌∷◌, ◌++◌, ◌&&◌, arith,
  Bool-cases, inl, inr, ◌==◌, ==_iff, ltb, if◌then◌else◌, shl32, length,
}
use qcom_ipq_aux_loader.Base.Bits.{or_field}
use qcom_ipq_aux_loader.Machine.Run.{mcr, dsb, SysReg, Machine, ok}
use qcom_ipq_aux_loader.Cache.{setway_word, sets_down, ways_down, level_setway}

-- How often a number stands in a list.
abbrev pub count : ℕ → List ℕ → ℕ
count a [] = 0
count a (x ∷ xs) = if x == a then suc (count a xs) else count a xs

below-mul : (a n k : ℕ) → a < n → a * k + k ≤ n * k
below-mul a n k h = grind arith

same_digits : (q r q' r' k : ℕ) → r < k → r' < k → q * k + r ≡ q' * k + r' → (q ≡ q') × (r ≡ r')
same_digits q r q' r' k h h' e = elim (lt_trichotomy q q') [
  | inl lt ↦ absurd (omega (arith, below-mul q q' k lt))
  | inr (inl same) ↦ (same, omega (arith, ap (λ (t : ℕ). t * k) same))
  | inr (inr gt) ↦ absurd (omega (arith, below-mul q' q k gt))
]
  where
    lt_trichotomy : (a b : ℕ) → (a < b) ⊎ ((a ≡ b) ⊎ (b < a))
    lt_trichotomy a b = ground arith

-- The three fields of a word do not meet, for all sets and ways of the level.
pub record Fits (level log2_line_len way_shift num_sets num_ways : ℕ) : Type 0 where
  pub level_fits : 2 * level < 2 ^ log2_line_len
  pub sets_fit : num_sets * 2 ^ log2_line_len ≤ 2 ^ way_shift
  pub ways_fit : num_ways * 2 ^ way_shift ≤ 2 ^ 32

module _ (level log2_line_len way_shift num_sets num_ways : ℕ)
    (fits : Fits level log2_line_len way_shift num_sets num_ways) where
  pub setway_word_lem :
      (set way : ℕ)
      → set < num_sets
      → way < num_ways
      → setway_word level log2_line_len way_shift set way
        ≡ 2 * level + set * 2 ^ log2_line_len + way * 2 ^ way_shift
  setway_word_lem set way h g =
      let line = below-mul set num_sets (2 ^ log2_line_len) h in
      let column = below-mul way num_ways (2 ^ way_shift) g in
      let l : shl32 level 1 ≡ 2 * level =
        omega (arith, fits.level_fits, fits.sets_fit, fits.ways_fit) in
      let s : shl32 set log2_line_len ≡ set * 2 ^ log2_line_len =
        omega (arith, fits.sets_fit, fits.ways_fit) in
      let w : shl32 way way_shift ≡ way * 2 ^ way_shift = omega (arith, fits.ways_fit) in
      rw
        (
          l,
          s,
          w,
          or_field log2_line_len set (2 * level) fits.level_fits (omega arith),
          or_field way_shift way (2 * level + set * 2 ^ log2_line_len)
              (omega (arith, fits.sets_fit)) (omega arith),
        )
        refl

  same_line :
      (set way set' way' : ℕ)
      → set < num_sets
      → way < num_ways
      → set' < num_sets
      → way' < num_ways
      → setway_word level log2_line_len way_shift set' way'
        ≡ setway_word level log2_line_len way_shift set way
      → (set' ≡ set) × (way' ≡ way)
  same_line set way set' way' h g h' g' e =
      let k = 2 ^ log2_line_len in
      let line = below-mul set num_sets k h in
      let line' = below-mul set' num_sets k h' in
      let (ways, rest) =
        same_digits way' (2 * level + set' * k) way (2 * level + set * k) (2 ^ way_shift)
          (omega arith) (omega arith)
          (omega (arith, e, setway_word_lem set way h g, setway_word_lem set' way' h' g')) in
      let (sets, low) =
        same_digits set' (2 * level) set (2 * level) k fits.level_fits fits.level_fits
          (omega (arith, rest)) in
      (sets, ways)

  -- Two lines have the same word exactly if they are the same.
  same_word :
      (set way set' way' : ℕ)
      → set < num_sets
      → way < num_ways
      → set' < num_sets
      → way' < num_ways
      → (setway_word level log2_line_len way_shift set' way'
          == setway_word level log2_line_len way_shift set way)
        ≡ (set' == set && way' == way)
  same_word set way set' way' h g h' g' =
      let w = setway_word level log2_line_len way_shift set way in
      let w' = setway_word level log2_line_len way_shift set' way' in
      elim (Bool-cases (w' == w)) [
        | inl e ↦
            let (sets, ways) = same_line set way set' way' h g h' g' ((==_iff w' w).0 e) in
            ground arith
        | inr e ↦ elim (Bool-cases (set' == set && way' == way)) [
          | inl same ↦ ground arith
          | inr other ↦ rw (e, other) refl
        ]
      ]

  -- The words for the sets below `n` of a way, and for all ways below `n`, before other words.
  row : ℕ → ℕ → List ℕ → List ℕ
  row way zero words = words
  row way (suc set) words = row way set (setway_word level log2_line_len way_shift set way ∷ words)

  rows : ℕ → List ℕ → List ℕ
  unfolding row
  rows zero words = words
  rows (suc way) words = rows way (row way num_sets words)

  count-row :
      (set way y n : ℕ) (words : List ℕ)
      → set < num_sets
      → way < num_ways
      → y < num_ways
      → n ≤ num_sets
      → count (setway_word level log2_line_len way_shift set way) (row y n words)
        ≡ count (setway_word level log2_line_len way_shift set way) words
          + (if way == y && ltb set n then 1 else 0)
  unfolding row
  count-row set way y zero words h g g' b = ground arith
  count-row set way y (suc s) words h g g' b =
      let rest =
        count-row set way y s (setway_word level log2_line_len way_shift s y ∷ words) h g g'
          (omega arith) in
      ground (arith, rest, same_word set way s y h g (omega arith) g')

  count-rows :
      (set way n : ℕ) (words : List ℕ)
      → set < num_sets
      → way < num_ways
      → n ≤ num_ways
      → count (setway_word level log2_line_len way_shift set way) (rows n words)
        ≡ count (setway_word level log2_line_len way_shift set way) words
          + (if ltb way n then 1 else 0)
  unfolding rows
  count-rows set way zero words h g b = ground arith
  count-rows set way (suc y) words h g b =
      let rest = count-rows set way y (row y num_sets words) h g (omega arith) in
      ground (arith, rest, count-row set way y num_sets words h g (omega arith))

  length-row : (y n : ℕ) (words : List ℕ) → length (row y n words) ≡ n + length words
  unfolding row
  length-row y zero words = omega arith
  length-row y (suc s) words = omega (arith, length-row y s (_ ∷ words))

  length-rows : (n : ℕ) (words : List ℕ) → length (rows n words) ≡ n * num_sets + length words
  unfolding rows
  length-rows zero words = omega arith
  length-rows (suc y) words =
      grind (arith, length-rows y (row y num_sets words), length-row y num_sets words)

  sets_lem :
      (op : SysReg) (way n : ℕ) (words : List ℕ) (m : Machine)
      → sets_down op level log2_line_len way_shift way n
          (record m { trace = map (mcr op) words ++ m.trace })
        ≡ ok tt (record m { trace = map (mcr op) (row way n words) ++ m.trace })
  unfolding sets_down row
  sets_lem op way zero words m = refl
  sets_lem op way (suc set) words m = sets_lem op way set (_ ∷ words) m

  ways_lem :
      (op : SysReg) (n : ℕ) (words : List ℕ) (m : Machine)
      → ways_down op level log2_line_len way_shift num_sets n
          (record m { trace = map (mcr op) words ++ m.trace })
        ≡ ok tt (record m { trace = map (mcr op) (rows n words) ++ m.trace })
  unfolding ways_down rows
  ways_lem op zero words m = refl
  ways_lem op (suc way) words m =
      rw (sets_lem op way num_sets words m, ways_down) (ways_lem op way (row way num_sets words) m)

  -- For a level whose fields do not meet: the loops return, change nothing but the trace, and have
  -- issued the operation `num_ways * num_sets` times, exactly once for each set and way.
  pub level_setway-Once :
      (op : SysReg) (m : Machine)
      → (words : List ℕ) × (level_setway op level num_sets num_ways way_shift log2_line_len m
          ≡ ok tt (record m { trace = mcr dsb 0 ∷ map (mcr op) words ++ m.trace }))
        × (length words ≡ num_ways * num_sets)
        × ((set way : ℕ)
            → set < num_sets
            → way < num_ways
            → count (setway_word level log2_line_len way_shift set way) words ≡ 1)
  unfolding level_setway
  level_setway-Once op m = (
    rows num_ways [],
    rw (ways_lem op num_ways [] m) refl,
    omega (arith, length-rows num_ways []),
    λ set way h g. ground (arith, count-rows set way num_ways [] h g),
  )
