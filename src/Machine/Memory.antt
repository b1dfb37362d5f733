-- ===== src/Machine/Memory.antt =====
-- Memory of a 32-bit little-endian machine. A cell is reduced to a byte when it is read, and an
-- address to 32 bits, so every function from numbers to numbers is a memory.
pub mod Laws
use qcom_ipq_aux_loader.Base.{ℕ, ◌+◌, ◌*◌, ◌/◌, ◌%◌, ◌^◌, u8, u32, ◌==◌, if◌then◌else◌}

abbrev pub Memory : Type 0
Memory = ℕ → ℕ

-- `*(u8*)p` and `*(u8*)p = v`
unfoldable pub load8 : Memory → ℕ → ℕ
load8 mem p = u8 (mem (u32 p))

unfoldable pub store8 : Memory → ℕ → ℕ → Memory
store8 mem p v q = if u32 p == q then u8 v else mem q

-- `*(u32*)p` and `*(u32*)p = v`
unfoldable pub load32 : Memory → ℕ → ℕ
load32 mem p =
    load8 mem p
    + 2 ^ 8 * load8 mem (p + 1)
    + 2 ^ 16 * load8 mem (p + 2)
    + 2 ^ 24 * load8 mem (p + 3)

unfoldable pub store32 : Memory → ℕ → ℕ → Memory
store32 mem p v =
    store8 (store8 (store8 (store8 mem p v) (p + 1) (v / 2 ^ 8)) (p + 2) (v / 2 ^ 16)) (p + 3)
      (v / 2 ^ 24)

-- The same four bytes as the number that a big-endian machine would read.
unfoldable pub load32_be : Memory → ℕ → ℕ
load32_be mem p =
    2 ^ 24 * load8 mem p
    + 2 ^ 16 * load8 mem (p + 1)
    + 2 ^ 8 * load8 mem (p + 2)
    + load8 mem (p + 3)
