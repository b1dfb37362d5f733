-- ===== src/Tests/Drivers.antt =====
-- Devices on a machine whose registers count.
use mathlib.Core.List.{map}
use qcom_ipq_aux_loader.Base.{
  ℕ, ◌+◌, ◌*◌, ◌^◌, ◌<◌, ◌≤◌, ◌≡◌, List, [], ◌∷◌, ◌++◌, arith, ◌⊎◌, length,
}
use qcom_ipq_aux_loader.Base.Digits.{bit}
use qcom_ipq_aux_loader.Machine.Run.{
  Event, wrote, loaded, mcr, sctlr, csselr, clidr, dsb, dcisw, dccisw, Machine, ok,
}
use qcom_ipq_aux_loader.Drivers.Cpu.{ipq806x}
use qcom_ipq_aux_loader.Drivers.Timer.{in_ticks, udelay}
use qcom_ipq_aux_loader.Drivers.Timer.Elapsed.{Runs, Ticking, readings, elapsed, udelay-elapsed}
use qcom_ipq_aux_loader.Drivers.Mdio.{ipq_mdio_read, ipq_mdio_write}
use qcom_ipq_aux_loader.Drivers.Mdio.Transacts.{
  Reads, Answer, mdio_read-Transacts, mdio_write-Transacts,
}
use qcom_ipq_aux_loader.Drivers.Watchdog.{wdt, ticks, watchdog_setup}
use qcom_ipq_aux_loader.Drivers.Watchdog.Sequence.{IsArmed, setup-IsArmed}
use qcom_ipq_aux_loader.Drivers.Gpio.{gpio_tlmm_config}
use qcom_ipq_aux_loader.Drivers.Gpio.Pins.{gpio_tlmm_config_lem}
use qcom_ipq_aux_loader.Cache.Control.{cleanup_before_linux}
use qcom_ipq_aux_loader.Cache.Control.Cleanup.{cleanup_off}
use qcom_ipq_aux_loader.Cache.Control.Order.{cleanup_before_linux-WritesBack}
use qcom_ipq_aux_loader.Cache.{
  v7_maint_dcache_all, v7_maint_dcache_level_setway, bit_length, log_2_n_round_up,
}
use qcom_ipq_aux_loader.Cache.Sweep.{count}
use qcom_ipq_aux_loader.Cache.Geometry.{maint_dcache_level-Once}
use qcom_ipq_aux_loader.Cache.Levels.{IsCache, Covers, Maintains, v7_maint_dcache_all-Maintains}
use qcom_ipq_aux_loader.Cache.Mmu.{page_table_memory}
use qcom_ipq_aux_loader.Cache.Mmu.Table.{entry, page_table_lem}
use qcom_ipq_aux_loader.Tests.Data.{counting, machine, bytes_at}

-- Of four readings two differ.
pub counting-Ticking : Ticking counting 4
counting-Ticking events v h = (omega arith, λ a b c d. omega (arith, a, d))

abbrev pub counting-Runs : Runs counting
counting-Runs = record { pace = 4; ticking = counting-Ticking; below = λ events. omega arith }

udelay-elapsed_example :
    (vs : List ℕ) × (udelay 200 1000 (machine (bytes_at []))
      ≡ ok tt (record (machine (bytes_at [])) { trace = readings (1 ∷ vs) [] }))
    × (in_ticks 1000 ≤ elapsed 1 vs)
unfolding in_ticks
udelay-elapsed_example =
    udelay-elapsed 4 200 1000 (machine (bytes_at [])) counting-Ticking (omega arith) (omega arith)

mdio_read-Transacts_example :
    Reads
      (Answer 0x10 (λ a. (0x14, a) ∷ []) (λ a. a < 2 ^ 32))
      (record (machine (bytes_at [])) { trace = wrote 0x10 0x1895 ∷ [] })
      (ipq_mdio_read 200 3 2 (machine (bytes_at [])))
mdio_read-Transacts_example =
    mdio_read-Transacts 200 3 2 (machine (bytes_at [])) counting-Runs (omega arith) (omega arith)
      (omega arith)

mdio_write-Transacts_example :
    Reads
      (Answer 0x10 (λ a. []) (λ a. a ≡ 0))
      (record (machine (bytes_at [])) { trace = wrote 0x10 0x1817 ∷ wrote 0x14 0x800 ∷ [] })
      (ipq_mdio_write 200 3 0 0x800 (machine (bytes_at [])))
mdio_write-Transacts_example =
    mdio_write-Transacts 200 3 0 0x800 (machine (bytes_at [])) counting-Runs (omega arith)
      (omega arith) (omega arith)

setup-IsArmed_example :
    (events : List Event) × (watchdog_setup ipq806x 30 (machine (bytes_at []))
      ≡ ok tt (record (machine (bytes_at [])) { trace = events ++ wrote (wdt ipq806x).en 0 ∷ [] }))
    × IsArmed ipq806x (30 * ticks ipq806x) (events ++ wrote (wdt ipq806x).en 0 ∷ [])
setup-IsArmed_example = setup-IsArmed ipq806x 30 (machine (bytes_at [])) (omega arith)

gpio_tlmm_config_lem_example :
    gpio_tlmm_config ipq806x 2 0 1 1 7 1 (machine (bytes_at []))
    ≡ ok tt (record (machine (bytes_at [])) {
      trace = wrote 0x80_1024 3 ∷ loaded 0x80_1024 1 ∷ wrote 0x80_1020 961 ∷ [];
    })
gpio_tlmm_config_lem_example =
    gpio_tlmm_config_lem ipq806x 2 0 1 1 7 1 (machine (bytes_at [])) (omega arith) (omega arith)
      (omega arith) (omega arith) (omega arith)

cleanup_off_example :
    (events : List Event) × (cr : ℕ) × (cleanup_before_linux ipq806x (machine (bytes_at []))
      ≡ ok tt (record (machine (bytes_at [])) { trace = events; control = cr }))
    × (bit 12 cr ≡ 0)
    × (bit 2 cr ≡ 0)
    × ((bit 2 (2 ^ 12 + 5) ≡ 0) ⊎ (bit 0 cr ≡ 0))
cleanup_off_example = cleanup_off ipq806x (machine (bytes_at []))

page_table_lem_example :
    entry (page_table_memory 0x4400_0000 0x4220_8000 0x200_0000 (bytes_at [])) 0x4400_0000 0x422
    ≡ 0x4220_0c1e
page_table_lem_example =
    page_table_lem 0x4400_0000 0x4220_8000 0x200_0000 0x422 (bytes_at []) (omega arith)
      (omega arith) (omega arith)

-- CLIDR says: data in the first two levels. CCSIDR says: 128 sets and 4 ways of lines of 64 bytes.
abbrev pub two_levels : Machine
two_levels = record (machine (bytes_at [])) {
  coprocessor = λ events r. elim r [ clidr ↦ 0x1a | _ ↦ 0xf_e01a ];
}

maint_dcache_level-Once_example :
    (words : List ℕ) × (v7_maint_dcache_level_setway dccisw 1 two_levels
      ≡ ok tt
          (record two_levels { trace = mcr dsb 0 ∷ map (mcr dccisw) words ++ mcr csselr 2 ∷ [] }))
    × (length words ≡ 512)
    × ((set way : ℕ) → set < 128 → way < 4 → count (2 + set * 2 ^ 6 + way * 2 ^ 30) words ≡ 1)
unfolding log_2_n_round_up bit_length
maint_dcache_level-Once_example =
    maint_dcache_level-Once dccisw 1 two_levels (omega arith) (omega arith) (omega arith)

pub two_levels-IsCache : IsCache two_levels.coprocessor 0x1a (λ level. 0xf_e01a)
unfolding log_2_n_round_up bit_length
two_levels-IsCache = record {
  identified = λ events. omega arith;
  answers = λ events level. omega arith;
  several = λ level h has. omega arith;
  room = λ level h has. omega arith;
}

v7_maint_dcache_all-Maintains_example :
    Maintains dccisw 0x1a (λ level. 0xf_e01a) 0 7 two_levels (v7_maint_dcache_all dccisw two_levels)
v7_maint_dcache_all-Maintains_example =
    v7_maint_dcache_all-Maintains dccisw 0x1a (λ level. 0xf_e01a) two_levels two_levels-IsCache

cleanup_before_linux-WritesBack_example :
    (last dropped written first : List Event) × (cr : ℕ) × (cleanup_before_linux ipq806x two_levels
      ≡ ok tt (record two_levels {
        trace = last ++ (dropped ++ mcr sctlr cr ∷ (written ++ (first ++ [])));
        control = cr;
      }))
    × Covers dccisw 0x1a (λ level. 0xf_e01a) 0 7 written
    × Covers dcisw 0x1a (λ level. 0xf_e01a) 0 7 dropped
    × (bit 12 cr ≡ 0)
    × (bit 2 cr ≡ 0)
    × (bit 0 cr ≡ 0)
cleanup_before_linux-WritesBack_example =
    cleanup_before_linux-WritesBack ipq806x 0x1a (λ level. 0xf_e01a) two_levels two_levels-IsCache
      (omega arith)
