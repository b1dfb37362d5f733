-- ===== src/Startup/Relocation.antt =====
-- The copying loop of src/head.S.
use qcom_ipq_aux_loader.Base.{
  ℕ, zero, suc, ◌+◌, ◌*◌, ◌/◌, ◌^◌, ◌≤◌, ◌<◌, ◌≡◌, ◌⊎◌, refl, subst, ◌∙◌, some, arith, add32,
  lt→ltb, le→ltb, ltb, if◌then◌else◌,
}
use native.Mathlib.Decide.{dec_lt}
use qcom_ipq_aux_loader.Machine.Memory.{Memory, load32, store32}
use qcom_ipq_aux_loader.Machine.Memory.Laws.{load32-store32_apart}
use qcom_ipq_aux_loader.Loader.Memcpy.Copies.{Copied, Copied-word, nothing-Copied}
use qcom_ipq_aux_loader.Startup.{copy_loop}

-- The loop copies whole pairs of words: `n` bytes rounded up to a multiple of eight.
abbrev pub copied_size : ℕ → ℕ
copied_size n = (n + 7) / 8 * 8

-- The source starts at `src`, the target at `dst`, and `n` bytes are copied, a multiple of eight.
module _ (mem : Memory) (dst src n : ℕ) (src_fits : src + n + 4 < 2 ^ 32)
    (dst_fits : dst + n < 2 ^ 32) (apart : (dst ≤ src) ⊎ (src + n ≤ dst)) where
  abbrev pair : ℕ → Memory → Memory
  pair i m =
      store32 (store32 m (dst + i) (load32 m (src + i))) (dst + i + 4) (load32 m (src + i + 4))

  -- Both words are loaded before the first is stored.
  Copied-pair :
      (i : ℕ) (m : Memory)
      → Copied mem dst src i m
      → i + 8 ≤ n
      → Copied mem dst src (i + 8) (pair i m)
  Copied-pair i m c h =
      let first = Copied-word mem dst src n src_fits dst_fits apart i m c (omega arith) in
      let second =
        Copied-word mem dst src n src_fits dst_fits apart (i + 4) _ first (omega arith) in
      let unseen =
        load32-store32_apart m (dst + i) (load32 m (src + i)) (src + i + 4) (omega arith)
          (omega arith) (omega arith) in
      let again : dst + (i + 4) ≡ dst + i + 4 = omega arith in
      let here : src + (i + 4) ≡ src + i + 4 = omega arith in
      let behind : i + 4 + 4 ≡ i + 8 = omega arith in
      subst
        (λ r.
          Copied mem dst src (i + 8)
            (store32 (store32 m (dst + i) (load32 m (src + i))) (dst + i + 4) r))
        unseen (rw (again, here, behind) at (second))

-- One round, while the addresses do not wrap around.
copy_loop-suc :
    (rounds src dst end : ℕ) (m : Memory)
    → src + 8 < 2 ^ 32
    → dst + 4 < 2 ^ 32
    → copy_loop (suc rounds) src dst end m ≡ (
        let m' = store32 (store32 m dst (load32 m src)) (dst + 4) (load32 m (src + 4)) in
        let rest = copy_loop rounds (src + 8) (add32 dst 8) end m' in
        if ltb (src + 8) end then rest else some m')
unfolding copy_loop
copy_loop-suc rounds src dst end m h g =
    let at_src : add32 src 8 ≡ src + 8 = omega arith in
    let at_src4 : add32 src 4 ≡ src + 4 = omega arith in
    let at_dst4 : add32 dst 4 ≡ dst + 4 = omega arith in rw (at_src, at_src4, at_dst4) refl

-- As above, for `count` pairs of words, of which `k` are copied.
module _ (mem : Memory) (dst src count : ℕ) (src_fits : src + 8 * count + 4 < 2 ^ 32)
    (dst_fits : dst + 8 * count < 2 ^ 32) (apart : (dst ≤ src) ⊎ (src + 8 * count ≤ dst)) where
  loop-Copied :
      (rounds k : ℕ) (m : Memory) (end : ℕ)
      → Copied mem dst src (8 * k) m
      → k < count
      → count ≤ k + rounds
      → src + 8 * count < end + 8
      → end ≤ src + 8 * count
      → (m' : Memory) × (copy_loop rounds (src + 8 * k) (dst + 8 * k) end m ≡ some m')
        × Copied mem dst src (8 * count) m'
  unfolding copy_loop
  loop-Copied zero k m end c more enough below above = absurd (omega arith)
  loop-Copied (suc rounds) k m end c more enough below above =
      let m' = pair mem dst src (8 * count) src_fits dst_fits apart (8 * k) m in
      let c' =
        Copied-pair mem dst src (8 * count) src_fits dst_fits apart (8 * k) m c (omega arith) in
      let one : 8 * k + 8 ≡ 8 * suc k = omega arith in
      let at_src : src + 8 * k + 8 ≡ src + 8 * suc k = omega arith in
      let round =
        copy_loop-suc rounds (src + 8 * k) (dst + 8 * k) end m (omega arith) (omega arith) in
      elim (dec_lt (src + 8 * suc k) end) [
        | yes h ↦
            let at_dst : add32 (dst + 8 * k) 8 ≡ dst + 8 * suc k = omega arith in
            let more : copy_loop (suc rounds) (src + 8 * k) (dst + 8 * k) end m
                ≡ copy_loop rounds (src + 8 * suc k) (dst + 8 * suc k) end m' =
              rw (round, at_src, at_dst, lt→ltb _ _ h) refl in
            let (m'', e, d) =
              loop-Copied rounds (suc k) m' end (rw one at (c')) (omega arith) (omega arith) below
                above in
            (m'', more ∙ e, d)
        | no h ↦
            let all : 8 * k + 8 ≡ 8 * count = omega arith in
            (
              m',
              rw (round, at_src, le→ltb (src + 8 * suc k) end (omega arith)) refl,
              rw all at (c'),
            )
      ]

-- Where neither range reaches the end of the address space and the target does not start inside
-- the source behind its first byte, the loop of src/head.S ends, within one round for every eight
-- bytes, with the payload's bytes at `dst` and no other byte changed but up to seven behind them.
pub copy_loop-Copied :
    (mem : Memory) (rounds dst src n : ℕ)
    → 0 < n
    → (n + 7) / 8 ≤ rounds
    → src + copied_size n + 4 < 2 ^ 32
    → dst + copied_size n < 2 ^ 32
    → (dst ≤ src) ⊎ (src + copied_size n ≤ dst)
    → (mem' : Memory) × (copy_loop rounds src dst (src + n) mem ≡ some mem')
      × Copied mem dst src (copied_size n) mem'
copy_loop-Copied mem rounds dst src n pos enough src_fits dst_fits apart =
    let count = (n + 7) / 8 in
    let size : copied_size n ≡ 8 * count = omega arith in
    let nothing =
      nothing-Copied mem dst src (8 * count) (omega arith) (omega arith) (rw size at (apart)) in
    let src0 : src + 0 ≡ src = omega arith in
    let dst0 : dst + 0 ≡ dst = omega arith in
    let start : copy_loop rounds src dst (src + n) mem
        ≡ copy_loop rounds (src + 8 * 0) (dst + 8 * 0) (src + n) mem =
      rw (src0, dst0) refl in
    let (m, e, c) =
      loop-Copied mem dst src count (omega arith) (omega arith) (rw size at (apart)) rounds 0 mem
        (src + n) nothing (omega arith) (omega arith) (omega arith) (omega arith) in
    (m, start ∙ e, rw size c)
