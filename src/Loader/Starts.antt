-- ===== src/Loader/Starts.antt =====
-- How src/loader.c starts the kernel.
use qcom_ipq_aux_loader.Base.{
  ℕ, ◌+◌, ◌^◌, ◌≤◌, ◌<◌, codes, List, [], ◌∷◌, ◌++◌, refl, ◌⊎◌, ◌≡◌, arith, add32, sub32,
}
use qcom_ipq_aux_loader.Base.Digits.{bit}
use qcom_ipq_aux_loader.Base.Int.{pos}
use qcom_ipq_aux_loader.Machine.Memory.{Memory, load32_be}
use qcom_ipq_aux_loader.Machine.Memory.Laws.{load32-lt}
use qcom_ipq_aux_loader.Board.Swap.{ntohl-load32, ntohl-lt}
use qcom_ipq_aux_loader.Machine.Run.{Event, jump, Machine, Run, ok, hang}
use qcom_ipq_aux_loader.Machine.Console.{say}
use qcom_ipq_aux_loader.Machine.Console.Says.{print-Says}
use qcom_ipq_aux_loader.Printf.Format.{word}
use qcom_ipq_aux_loader.Printf.Format.Typed.{typed}
use qcom_ipq_aux_loader.Drivers.Cpu.{Cpu}
use qcom_ipq_aux_loader.Drivers.Watchdog.Sequence.{reset_events, reset_cpu_lem}
use qcom_ipq_aux_loader.Cache.Control.Cleanup.{cleanup_off}
use qcom_ipq_aux_loader.Loader.Given.{Build}
use qcom_ipq_aux_loader.Loader.Memcpy.Copies.{Copied}
use qcom_ipq_aux_loader.Loader.Legacy.Handler.{ih_size, ih_load, ih_ep, with_kernel, legacy-Copied}
use qcom_ipq_aux_loader.Loader.Settled.{Settles, settled, main-then}
use qcom_ipq_aux_loader.Loader.{
  start_kernel, legacy_ih_magic, handle_magic, load_image, boot, loader_main,
}

-- The kernel is called at the entry address with the three parameters, caches disabled, and where
-- it returns, the board is reset. Of the machine only the trace and the control register change.
pub record Starts (cpu : Cpu) (m : Machine) (r : Run (Unit {0})) : Type 0 where
  pub before : List Event
  pub cr : ℕ
  pub ends :
      r
      ≡ hang (record m {
        trace =
            reset_events cpu ++ jump m.kernel_entry m.kernel_p0 m.kernel_p1 m.kernel_p2 ∷ before;
        control = cr;
      })
  pub icache_off : bit 12 cr ≡ 0
  pub dcache_off : bit 2 cr ≡ 0
  pub mmu_off : (bit 2 m.control ≡ 0) ⊎ (bit 0 cr ≡ 0)

start_kernel-Starts :
    (b : Build) (m : Machine) → m.kernel_entry < 2 ^ 32 → Starts b.cpu m (start_kernel b m)
unfolding start_kernel typed
start_kernel-Starts b m h =
    let (s, e) =
      print-Says (codes "Starting kernel at 0x%08x\n") (word m.kernel_entry ∷ []) refl (h, tt) m in
    let (t, f) = print-Says (codes "\n") [] refl tt (say s m) in
    let (events, cr, g, i, c, o) = cleanup_off b.cpu (say t (say s m)) in
    record {
      before = events;
      cr = cr;
      ends = rw (e, f, g, reset_cpu_lem) refl;
      icache_off = i;
      dcache_off = c;
      mmu_off = o;
    }

-- Where the image is loaded and the entry point set is a 32-bit address, `loader_main`'s part
-- behind the architecture check calls the kernel there, with both caches disabled.
pub loaded-Starts :
    (b : Build) (m m' : Machine)
    → load_image b m ≡ ok (pos 0) m'
    → m'.kernel_entry < 2 ^ 32
    → Starts b.cpu m' (boot b m)
unfolding boot
loaded-Starts b m m' e h = rw e (start_kernel-Starts b m' h)

-- A legacy image that passes the size check, stands in the address space with its target, and is
-- not copied upwards into itself.
pub record IsLegacy (b : Build) (mem : Memory) : Type 0 where
  pub magic : load32_be mem b.kernel_data_start ≡ legacy_ih_magic
  pub fits :
      ih_size mem b.kernel_data_start ≤ sub32 (sub32 b.kernel_data_end b.kernel_data_start) 64
  pub source : b.kernel_data_start + 64 + ih_size mem b.kernel_data_start + 4 < 2 ^ 32
  pub target : ih_load mem b.kernel_data_start + ih_size mem b.kernel_data_start < 2 ^ 32
  pub apart :
      (ih_load mem b.kernel_data_start ≤ b.kernel_data_start + 64)
      ⊎ (b.kernel_data_start + 64 + ih_size mem b.kernel_data_start
          ≤ ih_load mem b.kernel_data_start)

pub load_legacy :
    (b : Build) (m : Machine)
    → IsLegacy b m.memory
    → (s : List ℕ) × (mem' : Memory) × (load_image b m
        ≡ ok (pos 0) (with_kernel m s mem' (ih_ep m.memory b.kernel_data_start)))
      × Copied m.memory
          (ih_load m.memory b.kernel_data_start)
          (b.kernel_data_start + 64)
          (ih_size m.memory b.kernel_data_start)
          mem'
unfolding load_image handle_magic
load_legacy b m l =
    let (s, mem', e, c) =
      legacy-Copied m b.kernel_data_start (sub32 b.kernel_data_end b.kernel_data_start) l.fits
        l.source l.target l.apart in
    (s, mem', rw (ntohl-load32, l.magic) e, c)

-- In a build without RB3011_PREINITS, or with a timer whose counter runs and a loop bound above 33
-- times the readings that it takes to move: called with architecture 4200 on a machine whose memory
-- holds a legacy image whose body fits, with source and target in the address space and the target
-- not inside the source behind its first byte, `loader_main` copies the body to its load address
-- and calls the kernel at the header's entry point with 4200 as second parameter, both caches
-- disabled.
pub legacy_boot :
    (b : Build) (m : Machine)
    → Settles b m
    → IsLegacy b m.memory
    → (m' : Machine) × Starts b.cpu m' (loader_main b 4200 m)
      × (m'.kernel_entry ≡ ih_ep m.memory b.kernel_data_start)
      × (m'.kernel_p1 ≡ 4200)
      × Copied m.memory
          (ih_load m.memory b.kernel_data_start)
          (b.kernel_data_start + 64)
          (ih_size m.memory b.kernel_data_start)
          m'.memory
legacy_boot b m settles l = main-then Boots b 4200 m settles λ events base quiet.
    let n = settled 4200 events base m in
    let (u, mem', g, c) = load_legacy b n l in
    let m' = with_kernel n u mem' (ih_ep m.memory b.kernel_data_start) in
    (m', loaded-Starts b n m' g (ih_ep-lt m.memory b.kernel_data_start), refl, refl, c)
  where
    Boots : Run (Unit {0}) → Type 0
    Boots r =
        (m' : Machine) × Starts b.cpu m' r
        × (m'.kernel_entry ≡ ih_ep m.memory b.kernel_data_start)
        × (m'.kernel_p1 ≡ 4200)
        × Copied m.memory (ih_load m.memory b.kernel_data_start) (b.kernel_data_start + 64)
            (ih_size m.memory b.kernel_data_start) m'.memory

    ih_ep-lt : (mem : Memory) (image : ℕ) → ih_ep mem image < 2 ^ 32
    ih_ep-lt mem image =
        omega
          (arith, ntohl-load32 mem (add32 image 20), ntohl-lt _ (load32-lt mem (add32 image 20)))
