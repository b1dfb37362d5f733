-- ===== src/Board/Swap.antt =====
-- What `ntohl` computes, and what it reads from memory.
use qcom_ipq_aux_loader.Base.{ℕ, ◌+◌, ◌*◌, ◌/◌, ◌%◌, ◌^◌, ◌<◌, ◌≡◌, arith, bit_and, bit_or, shl32}
use qcom_ipq_aux_loader.Base.Bits.{bit_and_low, bit_or_add}
use qcom_ipq_aux_loader.Machine.Memory.{Memory, load32, load32_be}
use qcom_ipq_aux_loader.Machine.Memory.Laws.{load8-lt, load32-lt}
use qcom_ipq_aux_loader.Board.{ntohl}

-- One round appends the lowest byte of `d` to `res`.
append_byte : (res d : ℕ) → bit_or (shl32 res 8) (bit_and d 0xff) ≡ shl32 res 8 + d % 256
append_byte res d = rw (bit_and_low 8 d) (rw shifted (bit_or_add 8 _ (d % 256) (omega arith)))
  where
    shifted : shl32 res 8 ≡ res % 2 ^ 24 * 2 ^ 8
    shifted = omega arith

first_byte : (d : ℕ) → bit_or 0 (bit_and d 0xff) ≡ d % 256
first_byte d = rw (bit_and_low 8 d) (omega (arith, bit_or_add 8 0 (d % 256) (omega arith)))

-- The four bytes change places.
pub ntohl_bytes :
    (d : ℕ)
    → d < 2 ^ 32
    → ntohl d ≡ d % 256 * 2 ^ 24 + d / 2 ^ 8 % 256 * 2 ^ 16 + d / 2 ^ 16 % 256 * 2 ^ 8 + d / 2 ^ 24
unfolding ntohl
ntohl_bytes d h = rw (append_byte, append_byte, append_byte, first_byte) (omega arith)

pub ntohl-lt : (d : ℕ) → d < 2 ^ 32 → ntohl d < 2 ^ 32
ntohl-lt d h = omega (arith, ntohl_bytes d h)

-- Swapping the bytes of a 32-bit word twice gives the word back.
pub ntohl-ntohl : (d : ℕ) → d < 2 ^ 32 → ntohl (ntohl d) ≡ d
ntohl-ntohl d h = omega (arith, ntohl_bytes d h, ntohl_bytes (ntohl d) (ntohl-lt d h))

-- At every address, `ntohl` of the little-endian word is the big-endian word.
pub ntohl-load32 : (mem : Memory) (p : ℕ) → ntohl (load32 mem p) ≡ load32_be mem p
unfolding load32 load32_be
ntohl-load32 mem p = omega (
  arith,
  ntohl_bytes (load32 mem p) (load32-lt mem p),
  load8-lt mem p,
  load8-lt mem (p + 1),
  load8-lt mem (p + 2),
  load8-lt mem (p + 3),
)
