-- ===== src/Loader/Memcpy.antt =====
-- `my_memcpy` of src/loader.c: whole words first, then the bytes that are left. Each loop is given
-- `n + 1` rounds.
pub mod Copies
pub mod Stops
use qcom_ipq_aux_loader.Base.{ℕ, zero, suc, ◌+◌, Option, none, some, add32, ltb, leb, if◌then◌else◌}
use qcom_ipq_aux_loader.Machine.Memory.{Memory, load8, store8, load32, store32}

-- The loops' variables.
pub record Cursor : Type 0 where
  pub src : ℕ
  pub dst : ℕ
  pub mem : Memory

-- `for(; src + 4 <= end; src += 4, dst += 4) *((u32*)dst) = *((u32*)src);`
unfoldable pub copy_words : ℕ → ℕ → Cursor → Option Cursor
copy_words end zero c = none
copy_words end (suc rounds) c =
    let c' : Cursor = record {
      src = add32 c.src 4;
      dst = add32 c.dst 4;
      mem = store32 c.mem c.dst (load32 c.mem c.src);
    } in
    let rest = copy_words end rounds c' in if leb (add32 c.src 4) end then rest else some c

-- `for(; src < end; src++, dst++) *((u8*)dst) = *((u8*)src);`
unfoldable pub copy_bytes : ℕ → ℕ → Cursor → Option Cursor
copy_bytes end zero c = none
copy_bytes end (suc rounds) c =
    let c' : Cursor = record {
      src = add32 c.src 1;
      dst = add32 c.dst 1;
      mem = store8 c.mem c.dst (load8 c.mem c.src);
    } in
    let rest = copy_bytes end rounds c' in if ltb c.src end then rest else some c

unfoldable pub my_memcpy : Memory → ℕ → ℕ → ℕ → Option Memory
my_memcpy mem dst src n =
    let end = add32 src n in
    elim (copy_words end (n + 1) (record { src = src; dst = dst; mem = mem })) [
      | none ↦ none
      | some c ↦ elim (copy_bytes end (n + 1) c) [ none ↦ none | some c' ↦ some c'.mem ]
    ]
