-- ===== src/Cache/Mmu.antt =====
-- The page table of src/cpu.c: one word for each megabyte of the address space.
pub mod Table
pub mod Outside
use qcom_ipq_aux_loader.Base.{
  ℕ, zero, suc, ◌+◌, ◌-◌, ◌*◌, ◌^◌, bit_or, add32, shl32, shr, ◌==◌, if◌then◌else◌,
}
use qcom_ipq_aux_loader.Machine.Memory.{Memory, store32}
use qcom_ipq_aux_loader.Machine.Run.{ttbr, dacr, mcr, M, ◌>>=◌, ◌>>◌, ok, emit}
use qcom_ipq_aux_loader.Cache.{cr_m, get_cr, set_cr, cp_delay, arm_init_before_mmu}

-- CACHE_SETUP, without CONFIG_SYS_ARM_CACHE_WRITETHROUGH.
abbrev pub cache_setup : ℕ
cache_setup = 0x1e

abbrev pub section : ℕ → ℕ → ℕ
section i flags = bit_or (bit_or (shl32 i 20) (3 * 2 ^ 10)) flags

-- `page_table[i] = v`
abbrev pub set_entry : Memory → ℕ → ℕ → ℕ → Memory
set_entry mem page_table i v = store32 mem (add32 page_table (4 * i)) v

-- `for (i = 0; i < 4096; i++)`, with `left` rounds left.
unfoldable pub map_all : ℕ → ℕ → ℕ → Memory → Memory
map_all page_table i zero mem = mem
map_all page_table i (suc left) mem =
    map_all page_table (i + 1) left (set_entry mem page_table i (section i 0x12))

-- `dram_bank_mmu_setup`, with `left` rounds left.
unfoldable pub map_cached : ℕ → ℕ → ℕ → Memory → Memory
map_cached page_table i zero mem = mem
map_cached page_table i (suc left) mem =
    map_cached page_table (i + 1) left
      (if i == shr page_table 20 then mem else set_entry mem page_table i (section i cache_setup))

unfoldable pub dram_bank_mmu_setup : ℕ → ℕ → ℕ → Memory → Memory
dram_bank_mmu_setup page_table start size mem =
    let first = shr start 20 in map_cached page_table first (shr (add32 start size) 20 - first) mem

unfoldable pub page_table_memory : ℕ → ℕ → ℕ → Memory → Memory
page_table_memory page_table start size mem =
    dram_bank_mmu_setup page_table start size (map_all page_table 0 4096 mem)

abbrev pub write_page_table : ℕ → M (Unit {0})
write_page_table page_table m =
    ok tt (record m {
      memory = page_table_memory page_table m.bi_dram_0_start m.bi_dram_0_size m.memory;
    })

unfoldable pub mmu_setup : ℕ → M (Unit {0})
mmu_setup page_table = do
  arm_init_before_mmu
  write_page_table page_table
  emit (mcr ttbr page_table)
  emit (mcr dacr (2 ^ 32 - 1))
  reg ← get_cr
  cp_delay
  set_cr (bit_or reg cr_m)
