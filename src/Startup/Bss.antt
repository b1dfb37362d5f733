-- ===== src/Startup/Bss.antt =====
-- The clearing loop of src/start.S.
use qcom_ipq_aux_loader.Base.{
  ℕ, zero, suc, ◌+◌, ◌*◌, ◌^◌, ◌≤◌, ◌<◌, ◌≡◌, ◌⊎◌, refl, ◌∙◌, some, arith, add32, lt→ltb, le→ltb,
}
use native.Mathlib.Decide.{dec_lt}
use qcom_ipq_aux_loader.Machine.Memory.{Memory, load8, store32}
use qcom_ipq_aux_loader.Machine.Memory.Laws.{load8-store32}
use qcom_ipq_aux_loader.Startup.{clear_bss}

-- The `n` bytes at `start` are zero, and the others are unchanged.
pub record Cleared (mem : Memory) (start n : ℕ) (mem' : Memory) : Type 0 where
  pub inside : (j : ℕ) → j < n → load8 mem' (start + j) ≡ 0
  pub outside : (a : ℕ) → a < 2 ^ 32 → (a < start) ⊎ (start + n ≤ a) → load8 mem' a ≡ load8 mem a

module _ (mem : Memory) (start words : ℕ) (fits : start + 4 * words < 2 ^ 32) where
  Cleared-word :
      (k : ℕ) (m : Memory)
      → Cleared mem start (4 * k) m
      → k < words
      → Cleared mem start (4 * suc k) (store32 m (start + 4 * k) 0)
  Cleared-word k m c h = record {
    inside = λ j lt. ground (arith, load8-store32 m (start + 4 * k) 0 (start + j), c.inside j);
    outside = λ a lt out. ground (arith, load8-store32 m (start + 4 * k) 0 a, c.outside a lt);
  }

  loop-Cleared :
      (rounds k : ℕ) (m : Memory)
      → Cleared mem start (4 * k) m
      → k ≤ words
      → words < k + rounds
      → (m' : Memory) × (clear_bss rounds (start + 4 * k) (start + 4 * words) m ≡ some m')
        × Cleared mem start (4 * words) m'
  unfolding clear_bss
  loop-Cleared zero k m c le enough = absurd (omega arith)
  loop-Cleared (suc rounds) k m c le enough = elim (dec_lt k words) [
    | yes h ↦
        let (m', e, d) =
          loop-Cleared rounds (suc k) (store32 m (start + 4 * k) 0) (Cleared-word k m c h) h
            (omega arith) in
        let next : add32 (start + 4 * k) 4 ≡ start + 4 * suc k = omega arith in
        let round : clear_bss (suc rounds) (start + 4 * k) (start + 4 * words) m
            ≡ clear_bss rounds (start + 4 * suc k) (start + 4 * words)
                (store32 m (start + 4 * k) 0) =
          rw (next, lt→ltb (start + 4 * k) (start + 4 * words) (omega arith)) refl in
        (m', round ∙ e, d)
    | no h ↦
        let all : k ≡ words = omega arith in
        (m, rw (le→ltb (start + 4 * k) (start + 4 * words) (omega arith)) refl, rw all at (c))
  ]

-- The loop of src/start.S over a whole number of words below the end of the address space ends,
-- within one round more than there are words, with all bytes of the area zero and no other changed.
pub clear_bss-Cleared :
    (mem : Memory) (rounds start words : ℕ)
    → start + 4 * words < 2 ^ 32
    → words < rounds
    → (mem' : Memory) × (clear_bss rounds start (start + 4 * words) mem ≡ some mem')
      × Cleared mem start (4 * words) mem'
clear_bss-Cleared mem rounds start words fits enough =
    let nothing : Cleared mem start (4 * 0) mem = record {
      inside = λ j h. absurd (omega arith);
      outside = λ a h out. refl;
    } in
    let start0 : start + 0 ≡ start = omega arith in
    let from : clear_bss rounds start (start + 4 * words) mem
        ≡ clear_bss rounds (start + 4 * 0) (start + 4 * words) mem =
      rw start0 refl in
    let (m, e, c) =
      loop-Cleared mem start words fits rounds 0 mem nothing (omega arith) (omega arith) in
    (m, from ∙ e, c)
