-- ===== src/Lzma/Header.antt =====
-- The thirteen bytes at the head of an LZMA stream.
use qcom_ipq_aux_loader.Base.{
  ℕ, zero, suc, ◌+◌, ◌-◌, ◌*◌, ◌^◌, ◌<◌, ◌≤◌, ◌≡◌, refl, List, [], ◌∷◌, add32, sub32, shl32, arith,
}
use qcom_ipq_aux_loader.Machine.Memory.{Memory, load8, load32}
use qcom_ipq_aux_loader.Machine.Memory.Laws.{load8-lt}
use qcom_ipq_aux_loader.Lzma.{Stream, lzma_get_byte, get_bytes, lzma_init_props}

little_endian :
    (a b c d : ℕ)
    → a < 256
    → b < 256
    → c < 256
    → d < 256
    → add32 (add32 (add32 a (shl32 b 8)) (shl32 c 16)) (shl32 d 24)
      ≡ a + 2 ^ 8 * b + 2 ^ 16 * c + 2 ^ 24 * d
little_endian a b c d ha hb hc hd = omega arith

-- The bytes from `k` to `k + n - 1` behind an address.
abbrev bytes_from : Memory → ℕ → ℕ → ℕ → List ℕ
bytes_from mem p k zero = []
bytes_from mem p k (suc n) = load8 mem (p + k) ∷ bytes_from mem p (suc k) n

-- A stream when `k` of its bytes are taken.
abbrev behind : ℕ → ℕ → ℕ → Stream
behind p size k = record { lzma_data = p + k; lzma_datasize = size - k }

module _ (mem : Memory) (p size : ℕ) (inside : p + 13 < 2 ^ 32) (long : 13 ≤ size)
    (small : size < 2 ^ 32) where
  get_byte_lem :
      (k : ℕ)
      → k < 13
      → lzma_get_byte mem (behind p size k) ≡ (load8 mem (p + k), behind p size (suc k))
  unfolding lzma_get_byte
  get_byte_lem k h =
      let next : add32 (p + k) 1 ≡ p + suc k = omega arith in
      let left : sub32 (size - k) 1 ≡ size - suc k = omega arith in rw (next, left) refl

  get_bytes_lem :
      (n k : ℕ)
      → k + n ≤ 13
      → get_bytes mem n (behind p size k) ≡ (bytes_from mem p k n, behind p size (k + n))
  unfolding get_bytes
  get_bytes_lem zero k h = let e : k + 0 ≡ k = omega arith in rw e refl
  get_bytes_lem (suc n) k h =
      let sum : k + suc n ≡ suc k + n = omega arith in
      rw (get_byte_lem k (omega arith), get_bytes_lem n (suc k) (omega arith), sum) refl

-- For a stream of at least 13 bytes below the end of the address space, the five properties are
-- its first bytes, the output size is the little-endian word behind them, and the decoder is left
-- the stream behind byte 13.
pub init_props_lem :
    (mem : Memory) (p size : ℕ)
    → p + 13 < 2 ^ 32
    → 13 ≤ size
    → size < 2 ^ 32
    → lzma_init_props mem (record { lzma_data = p; lzma_datasize = size }) ≡ record {
      props =
          load8 mem p
          ∷ load8 mem (p + 1)
          ∷ load8 mem (p + 2)
          ∷ load8 mem (p + 3)
          ∷ load8 mem (p + 4)
          ∷ [];
      outsize = load32 mem (p + 5);
      rest = record { lzma_data = p + 13; lzma_datasize = size - 13 };
    }
unfolding lzma_init_props load32
init_props_lem mem p size a b c =
    let start : record { lzma_data = p; lzma_datasize = size } ≡ behind p size 0 = ground arith in
    let byte = get_byte_lem mem p size a b c in
    let bytes = get_bytes_lem mem p size a b c in
    let first : p + 0 ≡ p = omega arith in
    let q1 : p + 5 + 1 ≡ p + 6 = omega arith in
    let q2 : p + 5 + 2 ≡ p + 7 = omega arith in
    let q3 : p + 5 + 3 ≡ p + 8 = omega arith in
    let sum =
      little_endian _ _ _ _ (load8-lt mem (p + 5)) (load8-lt mem (p + 6)) (load8-lt mem (p + 7))
        (load8-lt mem (p + 8)) in
    rw
      (
        start,
        bytes 5 0 (omega arith),
        byte 5 (omega arith),
        byte 6 (omega arith),
        byte 7 (omega arith),
        byte 8 (omega arith),
        bytes 4 9 (omega arith),
        first,
        sum,
        q1,
        q2,
        q3,
      )
      refl
