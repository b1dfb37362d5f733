-- ===== src/Startup.antt =====
-- src/head.S and src/start.S: the loader's image is moved to where it was linked for, and the
-- state that C code expects is set up. The machine's fields for the C globals get their values
-- when the image's data and its cleared BSS are in place.
pub mod Relocation
pub mod Bss
pub mod Entry
pub mod Boots
pub mod Linked
pub mod Fulfils
pub mod Concludes
use qcom_ipq_aux_loader.Base.{
  ℕ, zero, suc, ◌+◌, ◌-◌, ◌^◌, Option, none, some, bit_and, bit_or, add32, sub32, ltb,
  if◌then◌else◌,
}
use qcom_ipq_aux_loader.Machine.Memory.{Memory, load32, store32}
use qcom_ipq_aux_loader.Machine.Run.{
  cpsr, vbar, iciallu, dsb, isb, mcr, Machine, M, ◌>>=◌, ◌>>◌, ok, pure, emit, get_memory,
  set_memory, finished, for_ever,
}
use qcom_ipq_aux_loader.Cache.{read_reg}
use qcom_ipq_aux_loader.Drivers.Watchdog.{watchdog_resetup}
use qcom_ipq_aux_loader.Loader.Given.{Build}
use qcom_ipq_aux_loader.Loader.Preinits.{nss_gmac0_base}
use qcom_ipq_aux_loader.Loader.{ipq_arch, loader_main}

-- What the linker scripts fix, and where the head stands: the boot loader chooses `start`.
pub record Image : Type 0 where
  pub start : ℕ
  pub payload_data_begin_ofs : ℕ
  pub payload_data_end_ofs : ℕ
  pub text_base : ℕ
  pub bss_start : ℕ
  pub bss_end : ℕ
  pub vector_table_stub : ℕ

-- `ldmia r0!, {r9-r10}; stmia r1!, {r9-r10}; cmp r0, r2; blo copy_loop`
unfoldable pub copy_loop : ℕ → ℕ → ℕ → ℕ → Memory → Option Memory
copy_loop zero r0 r1 r2 mem = none
copy_loop (suc rounds) r0 r1 r2 mem =
    let r9 = load32 mem r0 in
    let r10 = load32 mem (add32 r0 4) in
    let mem' = store32 (store32 mem r1 r9) (add32 r1 4) r10 in
    let rest = copy_loop rounds (add32 r0 8) (add32 r1 8) r2 mem' in
    if ltb (add32 r0 8) r2 then rest else some mem'

-- The registers r1 and r2 at a jump: the head's real address and the machine's number.
pub record Args : Type 0 where
  pub r1 : ℕ
  pub r2 : ℕ

-- `jump_2_ram`, up to the jump.
unfoldable pub jump_2_ram : ℕ → ℕ → M Args
jump_2_ram r5 r4 = do
  emit (mcr iciallu 0)
  emit (mcr dsb 0)
  emit (mcr isb 0)
  pure (record { r1 = r5; r2 = r4 })

-- `relocate_code(dst, REAL _start addr, ARCH)`
unfoldable pub relocate_code : Build → Image → ℕ → ℕ → ℕ → M Args
relocate_code b image dst start arch = do
  watchdog_resetup b.cpu
  mem ← get_memory
  mem' ← finished (
      copy_loop b.fuel (add32 image.payload_data_begin_ofs start) dst
        (add32 image.payload_data_end_ofs start) mem)
  set_memory mem'
  jump_2_ram start arch

-- `_start` of src/head.S; `pc` reads as the address of the instruction after next.
unfoldable pub head_start : Build → Image → ℕ → M Args
head_start b image arch = relocate_code b image image.text_base (sub32 (add32 image.start 8) 8) arch

-- `clbss_l`
unfoldable pub clear_bss : ℕ → ℕ → ℕ → Memory → Option Memory
clear_bss zero r0 r1 mem = none
clear_bss (suc rounds) r0 r1 mem =
    let rest = clear_bss rounds (add32 r0 4) r1 (store32 mem r0 0) in
    if ltb r0 r1 then rest else some mem

-- The C globals as they are initialised, in src/loader.c, src/cpu.c and src/mdio.c.
abbrev pub initial_globals : Machine → Machine
initial_globals m = record m {
  arch = 0;
  kernel_entry = 0;
  kernel_p0 = 0;
  kernel_p1 = ipq_arch;
  kernel_p2 = 0;
}

abbrev pub initial_ranges : Machine → Machine
initial_ranges m = record m { bi_dram_0_start = 0; bi_dram_0_size = 0 }

abbrev pub initial_reg_base : Machine → Machine
initial_reg_base m = record m { mdio_reg_base = nss_gmac0_base }

abbrev pub initial : Machine → Machine
initial m = initial_reg_base (initial_ranges (initial_globals m))

abbrev pub initialise : M (Unit {0})
initialise m = ok tt (initial m)

-- SVC mode with interrupts off.
abbrev pub svc_mode : ℕ → ℕ
svc_mode r0 = bit_or (bit_and r0 (2 ^ 32 - 1 - 0x1f)) 0xd3

-- `_start` of src/start.S, up to the call of `loader_main`.
unfoldable pub set_up_c : Build → Image → M (Unit {0})
set_up_c b image = do
  r0 ← read_reg cpsr
  emit (mcr cpsr (svc_mode r0))
  emit (mcr vbar image.vector_table_stub)
  mem ← get_memory
  mem' ← finished (clear_bss b.fuel image.bss_start image.bss_end mem)
  set_memory mem'
  initialise

unfoldable pub ram_start : Build → Image → Args → M (Unit {0})
ram_start b image args = do set_up_c b image; loader_main b args.r2

-- The boot loader calls the head with the machine's number in r1.
unfoldable pub start_up : Build → Image → ℕ → M (Unit {0})
start_up b image r1 = do args ← head_start b image r1; ram_start b image args

-- Every exception vector leads here: `b vector_table_stub`.
unfoldable pub vector_table : M (Unit {0})
vector_table = for_ever
