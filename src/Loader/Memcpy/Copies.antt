-- ===== src/Loader/Memcpy/Copies.antt =====
-- `my_memcpy` of src/loader.c, for ranges that may overlap.
use qcom_ipq_aux_loader.Base.{ℕ, zero, suc, ◌+◌, ◌^◌, ◌≤◌, ◌<◌, ◌≡◌, ◌⊎◌, refl, some, arith, add32}
use native.Mathlib.Decide.{dec_le, dec_lt}
use qcom_ipq_aux_loader.Machine.Memory.{Memory, load8, store8, load32, store32}
use qcom_ipq_aux_loader.Machine.Memory.Laws.{load8-store8, load8-store32, load32_bytes, load8-lt}
use qcom_ipq_aux_loader.Loader.Memcpy.{Cursor, copy_words, copy_bytes, my_memcpy}

-- The first `i` bytes at `dst` are those that stood at `src`, and the others are unchanged.
pub record Copied (mem : Memory) (dst src i : ℕ) (mem' : Memory) : Type 0 where
  pub inside : (j : ℕ) → j < i → load8 mem' (dst + j) ≡ load8 mem (src + j)
  pub outside : (a : ℕ) → a < 2 ^ 32 → (a < dst) ⊎ (dst + i ≤ a) → load8 mem' a ≡ load8 mem a

module _ (mem : Memory) (dst src n : ℕ) (src_fits : src + n + 4 < 2 ^ 32)
    (dst_fits : dst + n < 2 ^ 32) (apart : (dst ≤ src) ⊎ (src + n ≤ dst)) where
  -- The bytes of the source that are still to be copied have not been written to.
  ahead :
      (i k : ℕ) (mem' : Memory)
      → Copied mem dst src i mem'
      → i + k < n
      → load8 mem' (src + i + k) ≡ load8 mem (src + i + k)
  ahead i k mem' c h = c.outside (src + i + k) (omega arith) (omega arith)

  Copied-byte :
      (i : ℕ) (mem' : Memory)
      → Copied mem dst src i mem'
      → i < n
      → Copied mem dst src (i + 1) (store8 mem' (dst + i) (load8 mem' (src + i)))
  Copied-byte i mem' c h = record {
    inside = λ j lt. ground (
      arith,
      load8-store8 mem' (dst + i) (load8 mem' (src + i)) (dst + j),
      load8-lt mem' (src + i),
      c.inside j,
      ahead i 0 mem' c,
    );
    outside = λ a lt out.
        ground (arith, load8-store8 mem' (dst + i) (load8 mem' (src + i)) a, c.outside a lt);
  }

  pub Copied-word :
      (i : ℕ) (mem' : Memory)
      → Copied mem dst src i mem'
      → i + 4 ≤ n
      → Copied mem dst src (i + 4) (store32 mem' (dst + i) (load32 mem' (src + i)))
  Copied-word i mem' c h = record {
    inside = λ j lt. ground (
      arith,
      load8-store32 mem' (dst + i) (load32 mem' (src + i)) (dst + j),
      load32_bytes mem' (src + i),
      c.inside j,
      ahead i 0 mem' c,
      ahead i 1 mem' c,
      ahead i 2 mem' c,
      ahead i 3 mem' c,
    );
    outside = λ a lt out.
        ground (arith, load8-store32 mem' (dst + i) (load32 mem' (src + i)) a, c.outside a lt);
  }

  abbrev at : ℕ → Memory → Cursor
  at i mem' = record { src = src + i; dst = dst + i; mem = mem' }

  at-suc :
      (i k : ℕ) (mem' : Memory)
      → i + k ≤ n
      → record { src = add32 (src + i) k; dst = add32 (dst + i) k; mem = mem' } ≡ at (i + k) mem'
  at-suc i k mem' h = ground arith

  words-Copied :
      (rounds i : ℕ) (mem' : Memory)
      → Copied mem dst src i mem'
      → i ≤ n
      → n < i + rounds
      → (i' : ℕ) × (m : Memory) × (copy_words (src + n) rounds (at i mem') ≡ some (at i' m))
        × Copied mem dst src i' m
        × (i' ≤ n)
  unfolding copy_words
  words-Copied zero i mem' c le enough = absurd (omega arith)
  words-Copied (suc rounds) i mem' c le enough = elim (dec_le (i + 4) n) [
    | yes more ↦
        let m = store32 mem' (dst + i) (load32 mem' (src + i)) in
        let (i', m', e, c', le') =
          words-Copied rounds (i + 4) m (Copied-word i mem' c more) more (omega arith) in
        (i', m', ground (arith, at-suc i 4 mem' more), c', le')
    | no last ↦ (i, mem', ground arith, c, le)
  ]

  bytes-Copied :
      (rounds i : ℕ) (mem' : Memory)
      → Copied mem dst src i mem'
      → i ≤ n
      → n < i + rounds
      → (m : Memory) × (copy_bytes (src + n) rounds (at i mem') ≡ some (at n m))
        × Copied mem dst src n m
  unfolding copy_bytes
  bytes-Copied zero i mem' c le enough = absurd (omega arith)
  bytes-Copied (suc rounds) i mem' c le enough = elim (dec_lt i n) [
    | yes more ↦
        let m = store8 mem' (dst + i) (load8 mem' (src + i)) in
        let (m', e, c') =
          bytes-Copied rounds (i + 1) m (Copied-byte i mem' c more) (omega arith) (omega arith) in
        (m', ground (arith, at-suc i 1 mem' (omega arith)), c')
    | no last ↦ let all : n ≡ i = omega arith in (mem', rw all (ground arith), rw all c)
  ]

  pub nothing-Copied : Copied mem dst src 0 mem
  nothing-Copied = record { inside = λ j h. absurd (omega arith); outside = λ a h out. refl }

-- Where neither range reaches the end of the address space, and the target does not start inside
-- the source behind its first byte, `my_memcpy` returns, the `n` bytes at `dst` are those that
-- stood at `src` before, and no other byte has changed. The ranges may overlap if `dst` is below
-- `src`.
pub memcpy-Copied :
    (mem : Memory) (dst src n : ℕ)
    → src + n + 4 < 2 ^ 32
    → dst + n < 2 ^ 32
    → (dst ≤ src) ⊎ (src + n ≤ dst)
    → (mem' : Memory) × (my_memcpy mem dst src n ≡ some mem') × Copied mem dst src n mem'
unfolding my_memcpy
memcpy-Copied mem dst src n src_fits dst_fits apart =
    let start = nothing-Copied mem dst src n src_fits dst_fits apart in
    let end : add32 src n ≡ src + n = omega arith in
    let first : record { src = src + 0; dst = dst + 0; mem = mem } ≡ from = ground arith in
    let (i, m, words, c, le) =
      words-Copied mem dst src n src_fits dst_fits apart (n + 1) 0 mem start (omega arith)
        (omega arith) in
    let (m', bytes, c') =
      bytes-Copied mem dst src n src_fits dst_fits apart (n + 1) i m c le (omega arith) in
    (m', ground arith, c')
  where
    from : Cursor
    from = record { src = src; dst = dst; mem = mem }
