-- ===== src/Cache.antt =====
-- src/cpu.c. A CP15 write is an event; the control register is a field of the machine, the other
-- registers are read from the hardware.
pub mod Quiet
pub mod Logarithm
pub mod Coverage
pub mod Sweep
pub mod Geometry
pub mod Levels
pub mod Mmu
pub mod Control
pub mod Invariant
use qcom_ipq_aux_loader.Base.{
  ℕ, zero, suc, ◌+◌, ◌-◌, ◌*◌, ◌%◌, ◌^◌, bit_and, bit_or, sub32, shl32, shr, u32, ◌==◌, ◌||◌,
  if◌then◌else◌,
}
use qcom_ipq_aux_loader.Base.Int.{ℤ, pos, minus}
use qcom_ipq_aux_loader.Machine.Memory.{Memory, store32}
use qcom_ipq_aux_loader.Machine.Run.{
  SysReg, sctlr, ttbr, dacr, csselr, ccsidr, clidr, dcisw, dccisw, iciallu, bpiall, dsb, isb, cpsr,
  l2cpselr, l2cpdr, mcr, Machine, M, ◌>>=◌, ◌>>◌, ok, pure, emit, get_memory, set_memory,
}
use qcom_ipq_aux_loader.Drivers.Cpu.{Cpu, ipq4xxx, ipq806x}

abbrev pub cr_m : ℕ
cr_m = 2 ^ 0

abbrev pub cr_c : ℕ
cr_c = 2 ^ 2

abbrev pub cr_i : ℕ
cr_i = 2 ^ 12

abbrev pub get_cr : M ℕ
get_cr m = ok m.control m

abbrev pub set_cr : ℕ → M (Unit {0})
set_cr val m = emit (mcr sctlr val) (record m { control = val })

-- `for (i = 0; i < 100; i++) nop();`, with `left` rounds left.
abbrev pub nops : ℕ → M (Unit {0})
nops zero = pure tt
nops (suc left) = pure tt >> nops left

abbrev pub cp_delay : M (Unit {0})
cp_delay = nops 100

-- Weak symbols that the build leaves at their empty default.
abbrev pub v7_outer_cache_flush_all : M (Unit {0})
v7_outer_cache_flush_all = pure tt

abbrev pub v7_outer_cache_disable : M (Unit {0})
v7_outer_cache_disable = pure tt

abbrev pub v7_outer_cache_inval_all : M (Unit {0})
v7_outer_cache_inval_all = pure tt

abbrev pub arm_init_before_mmu : M (Unit {0})
arm_init_before_mmu = pure tt

-- The values of a Ctype field of CLIDR that name a level with data.
abbrev armv7_clidr_ctype_data_only : ℕ
armv7_clidr_ctype_data_only = 2

abbrev armv7_clidr_ctype_instruction_data : ℕ
armv7_clidr_ctype_instruction_data = 3

abbrev armv7_clidr_ctype_unified : ℕ
armv7_clidr_ctype_unified = 4

abbrev armv7_csselr_ind_data_unified : ℕ
armv7_csselr_ind_data_unified = 0

abbrev ccsidr_line_size_offset : ℕ
ccsidr_line_size_offset = 0

abbrev ccsidr_line_size_mask : ℕ
ccsidr_line_size_mask = 0x7

abbrev ccsidr_associativity_offset : ℕ
ccsidr_associativity_offset = 3

abbrev ccsidr_associativity_mask : ℕ
ccsidr_associativity_mask = 0x3ff * 2 ^ 3

abbrev ccsidr_num_sets_offset : ℕ
ccsidr_num_sets_offset = 13

abbrev ccsidr_num_sets_mask : ℕ
ccsidr_num_sets_mask = 0x7fff * 2 ^ 13

-- `mrc`
abbrev pub read_reg : SysReg → M ℕ
read_reg r m = ok (u32 (m.coprocessor m.trace r)) m

-- `while (temp) { log2n++; temp >>= 1; }`, counted from 0 rather than -1; 32 rounds empty a word.
unfoldable pub bit_length : ℕ → ℕ → ℕ
bit_length zero temp = 0
bit_length (suc rounds) temp =
    let rest = bit_length rounds (shr temp 1) in if temp == 0 then 0 else suc rest

-- The `s32` that is returned, as its bit pattern.
unfoldable pub log_2_n_round_up : ℕ → ℕ
log_2_n_round_up n =
    if bit_and n (sub32 n 1) == 0 then sub32 (bit_length 32 n) 1 else bit_length 32 n

abbrev pub setway_word : ℕ → ℕ → ℕ → ℕ → ℕ → ℕ
setway_word level log2_line_len way_shift set way =
    bit_or (bit_or (shl32 level 1) (shl32 set log2_line_len)) (shl32 way way_shift)

-- The operation on sets `set - 1` down to 0 of one way.
unfoldable pub sets_down : SysReg → ℕ → ℕ → ℕ → ℕ → ℕ → M (Unit {0})
sets_down op level log2_line_len way_shift way zero = pure tt
sets_down op level log2_line_len way_shift way (suc set) = do
  emit (mcr op (setway_word level log2_line_len way_shift set way))
  sets_down op level log2_line_len way_shift way set

unfoldable pub ways_down : SysReg → ℕ → ℕ → ℕ → ℕ → ℕ → M (Unit {0})
ways_down op level log2_line_len way_shift num_sets zero = pure tt
ways_down op level log2_line_len way_shift num_sets (suc way) = do
  sets_down op level log2_line_len way_shift way num_sets
  ways_down op level log2_line_len way_shift num_sets way

-- `v7_inval_dcache_level_setway` is this with `dcisw`, `v7_clean_inval_dcache_level_setway` with
-- `dccisw`.
unfoldable pub level_setway : SysReg → ℕ → ℕ → ℕ → ℕ → ℕ → M (Unit {0})
level_setway op level num_sets num_ways way_shift log2_line_len = do
  ways_down op level log2_line_len way_shift num_sets num_ways
  emit (mcr dsb 0)

abbrev pub set_csselr : ℕ → ℕ → M (Unit {0})
set_csselr level type = emit (mcr csselr (bit_or (shl32 level 1) type))

-- The operation is named by its instruction: `dcisw` for ARMV7_DCACHE_INVAL_ALL, `dccisw` for
-- ARMV7_DCACHE_CLEAN_INVAL_ALL.
unfoldable pub v7_maint_dcache_level_setway : SysReg → ℕ → M (Unit {0})
v7_maint_dcache_level_setway op level = do
  set_csselr level armv7_csselr_ind_data_unified
  size ← read_reg ccsidr
  let log2_line_len = shr (bit_and size ccsidr_line_size_mask) ccsidr_line_size_offset + 2 + 2
  let num_ways = shr (bit_and size ccsidr_associativity_mask) ccsidr_associativity_offset + 1
  let num_sets = shr (bit_and size ccsidr_num_sets_mask) ccsidr_num_sets_offset + 1
  level_setway op level num_sets num_ways (sub32 32 (log_2_n_round_up num_ways)) log2_line_len

-- `level` with `left` rounds of `for (level = 0; level < 7; level++)` left.
unfoldable pub levels_up : SysReg → ℕ → ℕ → ℕ → M (Unit {0})
levels_up op ids level zero = pure tt
levels_up op ids level (suc left) =
    let cache_type = bit_and (shr ids (3 * level)) 0x7 in
    let rest = levels_up op ids (level + 1) left in
    if cache_type == armv7_clidr_ctype_data_only
      || cache_type == armv7_clidr_ctype_instruction_data
      || cache_type == armv7_clidr_ctype_unified
    then v7_maint_dcache_level_setway op level >> rest
    else rest

unfoldable pub v7_maint_dcache_all : SysReg → M (Unit {0})
v7_maint_dcache_all op = do ids ← read_reg clidr; levels_up op ids 0 7

unfoldable pub invalidate_dcache_all : M (Unit {0})
invalidate_dcache_all = do v7_maint_dcache_all dcisw; v7_outer_cache_inval_all

unfoldable pub flush_dcache_all : M (Unit {0})
flush_dcache_all = do v7_maint_dcache_all dccisw; v7_outer_cache_flush_all
