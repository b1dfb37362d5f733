-- ===== src/Tests/Machines.antt =====
-- A UART, the caches, and the way from the head to `loader_main`.
use qcom_ipq_aux_loader.Base.{
  ℕ, ◌<◌, ◌+◌, ◌≡◌, ◌≢◌, ◌⊎◌, refl, List, [], ◌∷◌, Bool-cases, codes, true, inl, inr, arith,
  bit_and, ◌==◌, if◌then◌else◌,
}
use qcom_ipq_aux_loader.Machine.Run.{Event, wrote, loaded, putc, mcr, jump, Machine}
use qcom_ipq_aux_loader.Machine.Console.{print}
use qcom_ipq_aux_loader.Printf.Format.{word}
use qcom_ipq_aux_loader.Drivers.Cpu.{ipq806x}
use qcom_ipq_aux_loader.Drivers.Uart.{blsp, uart, sr_txrdy, tx_ready, serial_printf}
use qcom_ipq_aux_loader.Drivers.Uart.Transmits.{Eventually, now, later, Responds}
use qcom_ipq_aux_loader.Drivers.Uart.Refines.{Refines, serial_printf-Refines}
use qcom_ipq_aux_loader.Cache.Invariant.{
  Operation, enable_all, icache_off, flush, dcache_off, clean_up, perform_all, Keeps,
  perform_all-Keeps,
}
use qcom_ipq_aux_loader.Drivers.Mdio.Polling.{Returns}
use qcom_ipq_aux_loader.Loader.Preinits.{ipq806x_rb3011_preinits}
use qcom_ipq_aux_loader.Loader.Preinits.Finishes.{preinits-Returns}
use qcom_ipq_aux_loader.Startup.{Image, start_up}
use qcom_ipq_aux_loader.Loader.Given.{Build}
use qcom_ipq_aux_loader.Loader.Settled.{Settles}
use qcom_ipq_aux_loader.Startup.Boots.{start_up-Starts}
use qcom_ipq_aux_loader.Loader.Starts.{Starts}
use qcom_ipq_aux_loader.Machine.Memory.{load8, load32_be}
use qcom_ipq_aux_loader.Startup.Entry.{Enters, IsPlaced, start_up-Enters}
use qcom_ipq_aux_loader.Tests.Drivers.{counting-Runs}
use qcom_ipq_aux_loader.Tests.Data.{machine, board, bytes_at, blob, legacy}

-- A register that is busy when it is read first, and ready when it is read again.
abbrev pub ready : List Event → ℕ
ready [] = 0
ready (loaded a v ∷ events) = if v == 0 then 0xff else 0
ready (wrote a v ∷ events) = 0
ready (putc c ∷ events) = 0
ready (mcr r v ∷ events) = 0
ready (jump e p q r ∷ events) = 0

abbrev pub device : List Event → ℕ → ℕ
device events a = ready events

ready-cases : (events : List Event) → (ready events ≡ 0xff) ⊎ (ready events ≡ 0)
ready-cases [] = inr refl
ready-cases (loaded a v ∷ events) = elim (Bool-cases (v == 0)) [
  | inl e ↦ inl (rw e refl)
  | inr e ↦ inr (rw e refl)
]
ready-cases (wrote a v ∷ events) = inr refl
ready-cases (putc c ∷ events) = inr refl
ready-cases (mcr r v ∷ events) = inr refl
ready-cases (jump e p q r ∷ events) = inr refl

eventually :
    (a mask : ℕ)
    → bit_and 0xff mask ≢ 0
    → (bit_and 0 mask == 0) ≡ true
    → (events : List Event) → Eventually device a mask 2 events
eventually a mask some none events = elim (ready-cases events) [
  | inl e ↦ now events (rw e (ground arith))
  | inr e ↦ later events (rw e none) (now _ (rw e (ground arith)))
]

pub device-Responds : Responds device 2 blsp 0x7af_0000
device-Responds = record {
  empties = λ events. eventually _ tx_ready (omega arith) refl events;
  has_space = λ events. eventually _ sr_txrdy (omega arith) refl events;
}

abbrev pub console : Machine
console = record (machine (bytes_at [])) { device = device }

serial_printf-Refines_example :
    Refines blsp 0x7af_0000
      (print (codes "Op ret = %d\n") (word 7 ∷ []) console)
      (serial_printf 2 (uart blsp 0x7af_0000) (codes "Op ret = %d\n") (word 7 ∷ []) console)
serial_printf-Refines_example =
    serial_printf-Refines 2 blsp 0x7af_0000 (codes "Op ret = %d\n") (word 7 ∷ []) console console
      device-Responds (record { same = refl; words = refl; order = refl })

abbrev operations : List Operation
operations = enable_all ∷ icache_off ∷ flush ∷ dcache_off ∷ clean_up ipq806x ∷ []

perform_all-Keeps_example :
    Keeps (machine (bytes_at blob)) (perform_all 0x4400_0000 operations (machine (bytes_at blob)))
perform_all-Keeps_example =
    perform_all-Keeps 0x4400_0000 operations (machine (bytes_at blob)) (omega arith)

-- The head before its payload of 95 bytes, from address 4096 on.
abbrev pub image : Image
image = record {
  start = 4096;
  payload_data_begin_ofs = 40;
  payload_data_end_ofs = 135;
  text_base = 0x8480_0000;
  bss_start = 0x8480_0060;
  bss_end = 0x8480_0080;
  vector_table_stub = 0x8480_0040;
}

start_up-Enters_example :
    Enters
      (board 100)
      image
      95
      8
      4200
      (machine (bytes_at blob))
      (start_up (board 100) image 4200 (machine (bytes_at blob)))
start_up-Enters_example =
    start_up-Enters (board 100) image 95 8 4200 (machine (bytes_at blob)) (record {
      size = refl;
      nonempty = omega arith;
      src_fits = omega arith;
      dst_fits = omega arith;
      apart = inr (omega arith);
      bss_size = refl;
      bss_fits = omega arith;
      bss_behind = omega arith;
      rounds = omega arith;
      bss_rounds = omega arith;
    })

preinits-Returns_example :
    Returns
      (record (machine (bytes_at [])) { mdio_reg_base = 0x3720_0000 })
      (ipq806x_rb3011_preinits 200 (machine (bytes_at [])))
preinits-Returns_example = preinits-Returns 200 (machine (bytes_at [])) counting-Runs (omega arith)

-- The head before a legacy image that was linked to the text base, with the preinits.
abbrev pub legacy_build : Build
legacy_build = record (board 67) {
  rb3011 = true;
  kernel_data_start = 0x8480_0000;
  kernel_data_end = 0x8480_0043;
}

abbrev pub legacy_image : Image
legacy_image = record image { start = 4056; payload_data_end_ofs = 107 }

pub legacy-IsPlaced : IsPlaced legacy_build legacy_image 67 8
legacy-IsPlaced = record {
  size = refl;
  nonempty = omega arith;
  src_fits = omega arith;
  dst_fits = omega arith;
  apart = inr (omega arith);
  bss_size = refl;
  bss_fits = omega arith;
  bss_behind = omega arith;
  rounds = omega arith;
  bss_rounds = omega arith;
}

pub legacy-Settles : Settles legacy_build (machine (bytes_at legacy))
legacy-Settles = inr (refl, counting-Runs, omega arith)

start_up-Starts_example :
    (m' : Machine) × Starts ipq806x m'
      (start_up legacy_build legacy_image 4200 (machine (bytes_at legacy)))
    × (m'.kernel_entry ≡ load32_be (bytes_at legacy) 4116)
    × (m'.kernel_p1 ≡ 4200)
    × ((j : ℕ)
        → j < load32_be (bytes_at legacy) 4108
        → load8 m'.memory (load32_be (bytes_at legacy) 4112 + j)
          ≡ load8 (bytes_at legacy) (4160 + j))
unfolding load8 load32_be
start_up-Starts_example =
    start_up-Starts legacy_build legacy_image 67 8 0 (machine (bytes_at legacy)) legacy-Settles
      legacy-IsPlaced
      (record {
        start = refl;
        magic = refl;
        complete = omega arith;
        room = omega arith;
        fits = omega arith;
        target = omega arith;
        apart = inl (omega arith);
      })
