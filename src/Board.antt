-- ===== src/Board.antt =====
-- src/board.c: the byte swap that every header field goes through, and the traps.
pub mod Swap
pub mod Traps
use qcom_ipq_aux_loader.Base.{ℕ, zero, suc, ◌*◌, ◌/◌, ◌%◌, ◌^◌, bit_and, bit_or, shl32, shr}

-- `res |= d & 0xFF; res <<= 8; d >>= 8;`, with `a` rounds left, and the last `|=` after the loop.
ntohl_loop : ℕ → ℕ → ℕ → ℕ
ntohl_loop zero res d = bit_or res (bit_and d 0xff)
ntohl_loop (suc a) res d = ntohl_loop a (shl32 (bit_or res (bit_and d 0xff)) 8) (shr d 8)

unfoldable pub ntohl : ℕ → ℕ
unfolding ntohl_loop
ntohl d = ntohl_loop 3 0 d
