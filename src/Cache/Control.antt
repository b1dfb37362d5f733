-- ===== src/Cache/Control.antt =====
-- The cache and MMU switches of src/cpu.c, and the state in which the kernel is entered.
pub mod Cleanup
pub mod Enable
pub mod Order
use qcom_ipq_aux_loader.Base.{ℕ, ◌-◌, ◌^◌, bit_and, bit_or, ◌==◌, ◌&&◌, Bool, not, if◌then◌else◌}
use qcom_ipq_aux_loader.Machine.Run.{
  iciallu, bpiall, dsb, isb, cpsr, l2cpselr, l2cpdr, mcr, M, ◌>>=◌, ◌>>◌, pure, emit,
}
use qcom_ipq_aux_loader.Cache.{
  cr_m, cr_c, cr_i, get_cr, set_cr, read_reg, cp_delay, v7_outer_cache_disable, flush_dcache_all,
  invalidate_dcache_all,
}
use qcom_ipq_aux_loader.Cache.Mmu.{mmu_setup}
use qcom_ipq_aux_loader.Drivers.Cpu.{Cpu, ipq4xxx, ipq806x}

-- `mmu_enabled` as a test.
abbrev pub mmu_enabled : ℕ → Bool
mmu_enabled cr = not (bit_and cr cr_m == 0)

unfoldable pub cache_enable : ℕ → ℕ → M (Unit {0})
cache_enable page_table cache_bit = do
  cr ← get_cr
  if (cache_bit == cr_c) && not (mmu_enabled cr) then mmu_setup page_table else pure tt
  reg ← get_cr
  cp_delay
  set_cr (bit_or reg cache_bit)

unfoldable pub enable_caches : ℕ → M (Unit {0})
enable_caches page_table = do cache_enable page_table cr_i; cache_enable page_table cr_c

-- `reg & ~bits`
abbrev pub clear : ℕ → ℕ → ℕ
clear reg bits = bit_and reg (2 ^ 32 - 1 - bits)

-- `flush_dcache_all` and what follows it.
unfoldable pub flush_and_disable : ℕ → ℕ → M (Unit {0})
flush_and_disable reg cache_bit = do flush_dcache_all; set_cr (clear reg (bit_or cache_bit cr_m))

-- What is done for CR_C, with an early return where the cache is not enabled.
unfoldable pub disable_data : ℕ → ℕ → M (Unit {0})
disable_data reg cache_bit =
    if bit_and reg cr_c == cr_c then flush_and_disable reg cache_bit else pure tt

unfoldable pub cache_disable : ℕ → M (Unit {0})
cache_disable cache_bit = do
  reg ← get_cr
  cp_delay
  if cache_bit == cr_c then disable_data reg cache_bit else set_cr (clear reg cache_bit)

unfoldable pub icache_disable : M (Unit {0})
unfolding cache_disable
icache_disable = cache_disable cr_i

unfoldable pub dcache_disable : M (Unit {0})
unfolding cache_disable
dcache_disable = cache_disable cr_c

-- The returned flag, which no caller reads, is left out.
unfoldable pub disable_interrupts : M (Unit {0})
disable_interrupts = do old ← read_reg cpsr; emit (mcr cpsr (bit_or old 0xc0))

unfoldable pub invalidate_icache_all : M (Unit {0})
invalidate_icache_all = do
  emit (mcr iciallu 0)
  emit (mcr bpiall 0)
  emit (mcr dsb 0)
  emit (mcr isb 0)

abbrev pub l2esr_ind_addr : ℕ
l2esr_ind_addr = 0x204

unfoldable pub set_l2_indirect_reg : ℕ → ℕ → M (Unit {0})
set_l2_indirect_reg reg_addr val = do
  emit (mcr l2cpselr reg_addr)
  emit (mcr isb 0)
  emit (mcr l2cpdr val)
  emit (mcr isb 0)

unfoldable pub get_l2_indirect_reg : ℕ → M ℕ
get_l2_indirect_reg reg_addr = do emit (mcr l2cpselr reg_addr); emit (mcr isb 0); read_reg l2cpdr

unfoldable pub clear_l2cache_err : Cpu → M (Unit {0})
clear_l2cache_err ipq4xxx = pure tt
clear_l2cache_err ipq806x = do
  val ← get_l2_indirect_reg l2esr_ind_addr
  set_l2_indirect_reg l2esr_ind_addr val

unfoldable pub cleanup_before_linux : Cpu → M (Unit {0})
cleanup_before_linux cpu = do
  disable_interrupts
  icache_disable
  invalidate_icache_all
  dcache_disable
  v7_outer_cache_disable
  invalidate_dcache_all
  clear_l2cache_err cpu
  emit (mcr dsb 0)
  emit (mcr isb 0)
