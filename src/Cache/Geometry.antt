-- ===== src/Cache/Geometry.antt =====
-- What src/cpu.c reads of a cache level from CCSIDR, and its maintenance as a whole.
use mathlib.Core.List.{map}
use native.Mathlib.Nat.{
  one-le-pow, pow-suc, zero-add, add-zero, mul-div_left, mul-le-mul_right, pow-le-pow_right,
}
use qcom_ipq_aux_loader.Base.{
  ℕ, zero, suc, ◌+◌, ◌-◌, ◌*◌, ◌/◌, ◌%◌, ◌^◌, ◌<◌, ◌≤◌, ◌≡◌, List, ◌∷◌, ◌++◌, arith, Bool-cases,
  inl, inr, u32, shr, shl32, sub32, bit_and, bit_or, ltb, ltb→lt, ltb→le, length,
}
use qcom_ipq_aux_loader.Base.Bits.{bit_and_split, bit_and_low, bit_and-zero, bit_or-zero}
use qcom_ipq_aux_loader.Machine.Run.{mcr, dsb, csselr, ccsidr, SysReg, Machine, ok}
use qcom_ipq_aux_loader.Cache.{log_2_n_round_up, v7_maint_dcache_level_setway}
use qcom_ipq_aux_loader.Cache.Logarithm.{log_2_n_round_up_lem}
use qcom_ipq_aux_loader.Cache.Sweep.{count, Fits, setway_word_lem, level_setway-Once}

-- The fields of CCSIDR.
abbrev pub line_log2 : ℕ → ℕ
line_log2 size = size % 8 + 4

abbrev pub ways : ℕ → ℕ
ways size = size / 2 ^ 3 % 2 ^ 10 + 1

abbrev pub sets : ℕ → ℕ
sets size = size / 2 ^ 13 % 2 ^ 15 + 1

abbrev pub way_place : ℕ → ℕ
way_place size = 32 - log_2_n_round_up (ways size)

-- What the register answers when the level is selected.
abbrev pub level_size : Machine → ℕ → ℕ
level_size m level = u32 (m.coprocessor (mcr csselr (2 * level) ∷ m.trace) ccsidr)

pow_split : (a b : ℕ) → 2 ^ (a + b) ≡ 2 ^ a * 2 ^ b
pow_split zero b = rw zero-add (omega arith)
pow_split (suc a) b =
    let shift : suc a + b ≡ suc (a + b) = omega arith in
    rw (shift, pow-suc, pow-suc, pow_split a b) (grind arith)

mask_field : (w k size : ℕ) → shr (bit_and size ((2 ^ w - 1) * 2 ^ k)) k ≡ size / 2 ^ k % 2 ^ w
mask_field w k size =
    let q = size / 2 ^ k in
    let some = one-le-pow k 2 (omega arith) in
    let parts = bit_and_split k q (size % 2 ^ k) (2 ^ w - 1) 0 (grind arith) some in
    let whole : q * 2 ^ k + size % 2 ^ k ≡ size = grind arith in
    let mask : (2 ^ w - 1) * 2 ^ k + 0 ≡ (2 ^ w - 1) * 2 ^ k = omega arith in
    let parts' = rw (whole, mask, bit_and-zero, bit_and_low) at parts in
    rw (parts', add-zero) (mul-div_left (q % 2 ^ w) some)

small_log : (n : ℕ) → 0 < n → n ≤ 2 ^ 10 → log_2_n_round_up n ≤ 10
small_log n pos h = elim (Bool-cases (ltb 10 (log_2_n_round_up n))) [
  | inl e ↦
      let p = pow-le-pow_right {n = 2} (omega arith) (ltb→lt 10 (log_2_n_round_up n) e) in
      absurd (omega (arith, p, log_2_n_round_up_lem n))
  | inr e ↦ ltb→le 10 (log_2_n_round_up n) e
]

ways-fit : (n : ℕ) → 0 < n → n ≤ 2 ^ 10 → n * 2 ^ (32 - log_2_n_round_up n) ≤ 2 ^ 32
ways-fit n pos h =
    let l = log_2_n_round_up n in
    let below = small_log n pos h in
    let whole = pow_split l (32 - l) in
    let sum : l + (32 - l) ≡ 32 = omega arith in
    let whole' = rw sum at whole in
    let covers = (log_2_n_round_up_lem n pos (omega arith)).0 in
    let least = mul-le-mul_right (2 ^ (32 - l)) covers in omega (arith, whole', least)

level_fits : (level size : ℕ) → level < 7 → 2 * level < 2 ^ line_log2 size
level_fits level size h =
    let p = pow-le-pow_right {n = 2} (omega arith) {i = 4} {j = line_log2 size} (omega arith) in
    omega (arith, p)

-- For one of the seven levels, with at least two ways, whose sets and lines have room below the way
-- field: `v7_maint_dcache_level_setway` returns and changes nothing but the trace. Behind the
-- selection of the level it has issued the operation as often as the level has lines, and for each
-- set and way exactly once, with the level's number from bit 1 on, the set above the bytes of a
-- line, and the way in the top bits, with all sizes taken from CCSIDR.
pub maint_dcache_level-Once :
    (op : SysReg) (level : ℕ) (m : Machine)
    → level < 7
    → 1 < ways (level_size m level)
    → sets (level_size m level) * 2 ^ line_log2 (level_size m level)
      ≤ 2 ^ way_place (level_size m level)
    → (words : List ℕ) × (v7_maint_dcache_level_setway op level m
        ≡ ok tt (record m {
          trace = mcr dsb 0 ∷ map (mcr op) words ++ mcr csselr (2 * level) ∷ m.trace;
        }))
      × (length words ≡ ways (level_size m level) * sets (level_size m level))
      × ((set way : ℕ)
          → set < sets (level_size m level)
          → way < ways (level_size m level)
          → count
              (2 * level
                + set * 2 ^ line_log2 (level_size m level)
                + way * 2 ^ way_place (level_size m level))
              words
            ≡ 1)
unfolding v7_maint_dcache_level_setway
maint_dcache_level-Once op level m small several room =
    let size = level_size m level in
    let fits : Fits level (line_log2 size) (way_place size) (sets size) (ways size) = record {
      level_fits = level_fits level size small;
      sets_fit = room;
      ways_fit = ways-fit (ways size) (omega arith) (omega arith);
    } in
    let selected : bit_or (shl32 level 1) 0 ≡ 2 * level =
      let doubled : shl32 level 1 ≡ 2 * level = omega arith in rw bit_or-zero doubled in
    let line : shr (bit_and size 0x7) 0 + 2 + 2 ≡ line_log2 size =
      omega (arith, bit_and_low 3 size) in
    let columns : shr (bit_and size (0x3ff * 2 ^ 3)) 3 + 1 ≡ ways size =
      omega (arith, mask_field 10 3 size) in
    let rows : shr (bit_and size (0x7fff * 2 ^ 13)) 13 + 1 ≡ sets size =
      omega (arith, mask_field 15 13 size) in
    let place : sub32 32 (log_2_n_round_up (ways size)) ≡ way_place size =
      omega (arith, small_log (ways size) (omega arith) (omega arith)) in
    let (words, e, long, once) =
      level_setway-Once level (line_log2 size) (way_place size) (sets size) (ways size) fits op
        (record m { trace = mcr csselr (2 * level) ∷ m.trace }) in
    (
      words,
      rw (selected, line, columns, rows, place) e,
      long,
      λ set way h g.
          rw
            (← setway_word_lem level (line_log2 size) (way_place size) (sets size) (ways size) fits
              set way h g)
            (once set way h g),
    )
