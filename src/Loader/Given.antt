-- ===== src/Loader/Given.antt =====
-- What src/loader.c is given by the build and the linker, and its globals.
use qcom_ipq_aux_loader.Base.{ℕ, Bool}
use qcom_ipq_aux_loader.Machine.Run.{M, ◌>>=◌, ok, get_memory, set_memory, finished}
use qcom_ipq_aux_loader.Lzma.{Decoder}
use qcom_ipq_aux_loader.Drivers.Cpu.{Cpu}
use qcom_ipq_aux_loader.Loader.Memcpy.{my_memcpy}

-- What the build and the linker fix, the LZMA decoder, and the fuel of the model's loops.
pub record Build : Type 0 where
  pub cpu : Cpu
  -- RB3011_PREINITS
  pub rb3011 : Bool
  pub kernel_data_start : ℕ
  pub kernel_data_end : ℕ
  pub workspace : ℕ
  pub page_table : ℕ
  pub decoder : Decoder
  pub fuel : ℕ

-- Assignments to the globals.
abbrev pub set_kernel_entry : ℕ → M (Unit {0})
set_kernel_entry a m = ok tt (record m { kernel_entry = a })

abbrev pub set_kernel_p2 : ℕ → M (Unit {0})
set_kernel_p2 a m = ok tt (record m { kernel_p2 = a })

abbrev pub set_arch : ℕ → M (Unit {0})
set_arch a m = ok tt (record m { arch = a; kernel_p1 = a })

abbrev pub bi_dram_0_set_ranges : ℕ → ℕ → M (Unit {0})
bi_dram_0_set_ranges start size m =
    ok tt (record m { bi_dram_0_start = start; bi_dram_0_size = size })

unfoldable pub copy : ℕ → ℕ → ℕ → M (Unit {0})
copy dst src n = do mem ← get_memory; mem' ← finished (my_memcpy mem dst src n); set_memory mem'
