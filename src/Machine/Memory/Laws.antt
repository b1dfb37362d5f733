-- ===== src/Machine/Memory/Laws.antt =====
-- How loads see stores.
use qcom_ipq_aux_loader.Base.{
  ℕ, ◌+◌, ◌/◌, ◌^◌, ◌≤◌, ◌<◌, ◌≡◌, ◌⊎◌, arith, u8, u32, ◌==◌, if◌then◌else◌,
}
use qcom_ipq_aux_loader.Machine.Memory.{Memory, load8, store8, load32, store32}

pub load8-lt : (mem : Memory) (p : ℕ) → load8 mem p < 256
unfolding load8
load8-lt mem p = omega arith

pub load32-lt : (mem : Memory) (p : ℕ) → load32 mem p < 2 ^ 32
unfolding load32
load32-lt mem p =
    omega (arith, load8-lt mem p, load8-lt mem (p + 1), load8-lt mem (p + 2), load8-lt mem (p + 3))

pub load8-store8 :
    (mem : Memory) (p v q : ℕ)
    → load8 (store8 mem p v) q ≡ (if u32 p == u32 q then u8 v else load8 mem q)
unfolding load8 store8
load8-store8 mem p v q = ground arith

-- The four bytes of a loaded word.
pub load32_bytes :
    (mem : Memory) (s : ℕ)
    → (u8 (load32 mem s) ≡ load8 mem s)
      × (u8 (load32 mem s / 2 ^ 8) ≡ load8 mem (s + 1))
      × (u8 (load32 mem s / 2 ^ 16) ≡ load8 mem (s + 2))
      × (u8 (load32 mem s / 2 ^ 24) ≡ load8 mem (s + 3))
unfolding load32
load32_bytes mem s =
    omega (arith, load8-lt mem s, load8-lt mem (s + 1), load8-lt mem (s + 2), load8-lt mem (s + 3))

-- A stored word that does not wrap around the address space, byte by byte.
pub load8-store32 :
    (mem : Memory) (p v q : ℕ)
    → p + 4 ≤ 2 ^ 32
    → q < 2 ^ 32
    → load8 (store32 mem p v) q ≡ (
        if q == p + 3
        then u8 (v / 2 ^ 24)
        else if q == p + 2
        then u8 (v / 2 ^ 16)
        else if q == p + 1
        then u8 (v / 2 ^ 8)
        else if q == p
        then u8 v
        else load8 mem q)
unfolding store32
load8-store32 mem p v q hp hq =
    rw (load8-store8, load8-store8, load8-store8, load8-store8) (ground arith)

pub load32-store32 :
    (mem : Memory) (p v : ℕ) → p + 4 ≤ 2 ^ 32 → v < 2 ^ 32 → load32 (store32 mem p v) p ≡ v
unfolding load32
load32-store32 mem p v room small = ground (
  arith,
  load8-store32 mem p v p room (omega arith),
  load8-store32 mem p v (p + 1) room (omega arith),
  load8-store32 mem p v (p + 2) room (omega arith),
  load8-store32 mem p v (p + 3) room (omega arith),
)

pub load32-store32_apart :
    (mem : Memory) (p v q : ℕ)
    → p + 4 ≤ 2 ^ 32
    → q + 4 ≤ 2 ^ 32
    → (q + 4 ≤ p) ⊎ (p + 4 ≤ q)
    → load32 (store32 mem p v) q ≡ load32 mem q
unfolding load32
load32-store32_apart mem p v q room room' apart = ground (
  arith,
  load8-store32 mem p v q room (omega arith),
  load8-store32 mem p v (q + 1) room (omega arith),
  load8-store32 mem p v (q + 2) room (omega arith),
  load8-store32 mem p v (q + 3) room (omega arith),
)
