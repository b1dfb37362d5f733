-- ===== src/Loader.antt =====
-- src/loader.c: from the image behind the loader to the jump into the kernel. The build is one
-- without DEBUG, where `debug(...)` is empty.
pub mod Memcpy
pub mod Preinits
pub mod Given
pub mod Legacy
pub mod Fit
pub mod Ends
pub mod Settled
pub mod Starts
pub mod FitBoot
pub mod FitStart
pub mod Verdict
pub mod Outcome
pub mod Local
pub mod Duty
pub mod WritesBack
pub mod Meets
pub mod Every
use qcom_ipq_aux_loader.Base.{
  ℕ, zero, suc, ◌+◌, ◌-◌, ◌*◌, ◌%◌, ◌^◌, Bool, List, [], ◌∷◌, codes, add32, sub32, ltb, leb, ◌==◌,
  if◌then◌else◌,
}
use qcom_ipq_aux_loader.Base.Int.{int_word, ℤ, pos, negsuc, minus, is_nonzero}
use qcom_ipq_aux_loader.Machine.Memory.{Memory, load32}
use qcom_ipq_aux_loader.Machine.Run.{
  jump, Machine, M, ◌>>=◌, ◌>>◌, ok, pure, emit, for_ever, get_memory, set_memory, finished,
}
use qcom_ipq_aux_loader.Machine.Console.{print}
use qcom_ipq_aux_loader.Printf.Format.{word}
use qcom_ipq_aux_loader.Fdt.{Reply, fdt_check_header, fdt_get_prop}
use qcom_ipq_aux_loader.Board.{ntohl}
use qcom_ipq_aux_loader.Lzma.{Decoder, lzma_gogogo}
use qcom_ipq_aux_loader.Cache.Control.{enable_caches, cleanup_before_linux}
use qcom_ipq_aux_loader.Drivers.Cpu.{Cpu}
use qcom_ipq_aux_loader.Drivers.Watchdog.{watchdog_setup, reset_cpu}
use qcom_ipq_aux_loader.Loader.Memcpy.{my_memcpy}
use qcom_ipq_aux_loader.Loader.Preinits.{ipq806x_rb3011_preinits}
use qcom_ipq_aux_loader.Loader.Given.{
  Build, set_kernel_entry, set_kernel_p2, set_arch, bi_dram_0_set_ranges, copy,
}
use qcom_ipq_aux_loader.Loader.Legacy.{handle_legacy_header}
use qcom_ipq_aux_loader.Loader.Fit.{handle_fit_header}

abbrev pub ipq_arch : ℕ
ipq_arch = 4200

abbrev pub legacy_ih_magic : ℕ
legacy_ih_magic = 0x2705_1956

abbrev pub fit_ih_magic : ℕ
fit_ih_magic = 0xd00d_feed

-- `watchdog_setup(5); for(;;);`
unfoldable pub reboot : Build → M (Unit {0})
reboot b = do watchdog_setup b.cpu 5; for_ever

unfoldable pub arch_mismatch : Build → ℕ → M (Unit {0})
arch_mismatch b arch = do
  print (codes "Critical alert ! ARCH mismatch: %u vs %u\n") (word arch ∷ word ipq_arch ∷ [])
  reboot b

unfoldable pub load_failed : Build → ℤ → M (Unit {0})
load_failed b ret = do
  print (codes "\n") []
  print (codes "Op ret = %d\n") (word (int_word ret) ∷ [])
  print (codes "Auto reboot in 5 sec\n") []
  reboot b

-- `kernel_entry(kernel_p0, kernel_p1, kernel_p2)`
abbrev pub call_kernel : M (Unit {0})
call_kernel m = emit (jump m.kernel_entry m.kernel_p0 m.kernel_p1 m.kernel_p2) m

abbrev pub get_kernel_entry : M ℕ
get_kernel_entry m = ok m.kernel_entry m

-- What stands behind the call is reached only when the kernel returns.
unfoldable pub start_kernel : Build → M (Unit {0})
start_kernel b = do
  entry ← get_kernel_entry
  print (codes "Starting kernel at 0x%08x\n") (word entry ∷ [])
  print (codes "\n") []
  cleanup_before_linux b.cpu
  call_kernel
  reset_cpu b.cpu

unfoldable pub unknown_magic : ℕ → M ℤ
unknown_magic magic = do
  print (codes "  magic = 0x%x, UNKNOWN !!!\n") (word magic ∷ [])
  pure (minus 100)

-- `switch(magic)`
unfoldable pub handle_magic : Build → ℕ → ℕ → M ℤ
handle_magic b kern_image_len magic =
    if magic == legacy_ih_magic
    then handle_legacy_header b.kernel_data_start kern_image_len
    else if magic == fit_ih_magic
    then handle_fit_header b b.kernel_data_start kern_image_len
    else unknown_magic magic

unfoldable pub load_image : Build → M ℤ
load_image b = do
  mem ← get_memory
  handle_magic b (sub32 b.kernel_data_end b.kernel_data_start)
      (ntohl (load32 mem b.kernel_data_start))

unfoldable pub boot : Build → M (Unit {0})
boot b = do ret ← load_image b; if is_nonzero ret then load_failed b ret else start_kernel b

unfoldable pub preinits : Build → M (Unit {0})
preinits b = do print (codes "\n") []; ipq806x_rb3011_preinits b.fuel

unfoldable pub banner : M (Unit {0})
banner = do
  print (codes "\n") []
  print (codes "OpenWrt kernel loader for Qualcomm IPQ-4XXX/IPQ-806X\n") []
  print (codes "Copyright 2019-2020 Sergey Sergeev <adron@mstnt.com>\n") []

-- `loader_main`; `head_text_base` is only shown by `debug`.
unfoldable pub loader_main : Build → ℕ → M (Unit {0})
loader_main b arch = do
  banner
  if b.rb3011 then preinits b else pure tt
  print (codes "\n") []
  set_arch arch
  if arch == ipq_arch then boot b else arch_mismatch b arch
