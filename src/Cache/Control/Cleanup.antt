-- ===== src/Cache/Control/Cleanup.antt =====
-- The state in which `cleanup_before_linux` leaves the processor.
use qcom_ipq_aux_loader.Base.{
  ℕ, ◌-◌, ◌^◌, ◌/◌, List, refl, ◌⊎◌, ◌≡◌, ◌==◌, if◌then◌else◌, bit_and, bit_or, Bool-cases, inl,
  inr, arith,
}
use qcom_ipq_aux_loader.Base.Bits.{bit_and_digit, bit_and_low}
use qcom_ipq_aux_loader.Base.Digits.{bit, bit-bit_and}
use qcom_ipq_aux_loader.Machine.Run.{Event, Machine, M, Run, ok, and_then}
use qcom_ipq_aux_loader.Drivers.Cpu.{Cpu, ipq4xxx, ipq806x}
use qcom_ipq_aux_loader.Cache.{cr_c, cr_m, cr_i}
use qcom_ipq_aux_loader.Cache.Quiet.{Quiet, flush-Quiet, invalidate-Quiet}
use qcom_ipq_aux_loader.Cache.Control.{
  clear, cache_disable, disable_data, icache_disable, flush_and_disable, dcache_disable,
  disable_interrupts, invalidate_icache_all, clear_l2cache_err, set_l2_indirect_reg,
  get_l2_indirect_reg, cleanup_before_linux,
}

-- The control register after the data cache is disabled.
abbrev pub without_dcache : ℕ → ℕ
without_dcache reg = if bit_and reg cr_c == cr_c then clear reg (bit_or cr_c cr_m) else reg

-- A run that has changed the control register to `cr`, and else the trace alone.
abbrev pub Controls : ℕ → Machine → Run (Unit {0}) → Type 0
Controls cr m r = (events : List Event) × (r ≡ ok tt (record m { trace = events; control = cr }))

Controls-then :
    (r : Run (Unit {0})) (k : Unit {0} → M (Unit {0})) (cr cr' : ℕ) (m : Machine)
    → Controls cr m r
    → ((events : List Event) → Controls cr' m (k tt (record m { trace = events; control = cr })))
    → Controls cr' m (and_then r k)
Controls-then r k cr cr' m (events, e) rest = let (events', f) = rest events in (events', rw e f)

pub dcache_disable-Controls :
    (m : Machine) → Controls (without_dcache m.control) m (dcache_disable m)
unfolding dcache_disable cache_disable disable_data flush_and_disable
dcache_disable-Controls m = elim (Bool-cases (bit_and m.control cr_c == cr_c)) [
  | inl e ↦ let (events, f) = flush-Quiet m in rw (e, f) (_, refl)
  | inr e ↦ rw e (m.trace, refl)
]

pub clear_l2-Quiet : (cpu : Cpu) (m : Machine) → Quiet tt m (clear_l2cache_err cpu m)
unfolding clear_l2cache_err set_l2_indirect_reg get_l2_indirect_reg
clear_l2-Quiet ipq4xxx m = (m.trace, refl)
clear_l2-Quiet ipq806x m = (_, refl)

pub cleanup-Controls :
    (cpu : Cpu) (m : Machine)
    → Controls (without_dcache (clear m.control cr_i)) m (cleanup_before_linux cpu m)
unfolding cleanup_before_linux disable_interrupts icache_disable cache_disable invalidate_icache_all
cleanup-Controls cpu m =
    let cr = without_dcache (clear m.control cr_i) in
    Controls-then _ _ cr cr m (dcache_disable-Controls _) λ t.
      Controls-then _ _ cr cr m (invalidate-Quiet _)
        λ u. Controls-then _ _ cr cr m (clear_l2-Quiet cpu _) λ v. (_, refl)

pub without-dcache : (reg : ℕ) → bit 2 (without_dcache reg) ≡ 0
without-dcache reg = elim (Bool-cases (bit_and reg cr_c == cr_c)) [
  | inl e ↦ rw e (omega (arith, bit-bit_and 2 reg (2 ^ 32 - 1 - 5)))
  | inr e ↦
      rw e (
        ground (arith, bit_and_digit reg 4, bit_and_digit (reg / 2) 2, bit_and_low 1 (reg / 2 / 2)))
]

keeps-zero : (k reg : ℕ) → bit k reg ≡ 0 → bit k (without_dcache reg) ≡ 0
keeps-zero k reg h = elim (Bool-cases (bit_and reg cr_c == cr_c)) [
  | inl e ↦ rw e (omega (arith, bit-bit_and k reg (2 ^ 32 - 1 - 5)))
  | inr e ↦ rw e h
]

mmu_off : (reg : ℕ) → (bit 2 reg ≡ 0) ⊎ (bit 0 (without_dcache (clear reg cr_i)) ≡ 0)
mmu_off reg = elim (Bool-cases (bit_and (clear reg cr_i) cr_c == cr_c)) [
  | inl e ↦ inr (rw e (omega (arith, bit-bit_and 0 (clear reg cr_i) (2 ^ 32 - 1 - 5))))
  | inr e ↦ inl (
      let cr = clear reg cr_i in
      let kept : bit 2 cr ≡ bit 2 reg = omega (arith, bit-bit_and 2 reg (2 ^ 32 - 1 - cr_i)) in
      ground
        (arith, kept, bit_and_digit cr 4, bit_and_digit (cr / 2) 2, bit_and_low 1 (cr / 2 / 2)))
]

-- `cleanup_before_linux` returns with both caches disabled, and with the MMU disabled if the data
-- cache was enabled before. Of the machine only the trace and the control register change.
pub cleanup_off :
    (cpu : Cpu) (m : Machine)
    → (events : List Event) × (cr : ℕ) × (cleanup_before_linux cpu m
        ≡ ok tt (record m { trace = events; control = cr }))
      × (bit 12 cr ≡ 0)
      × (bit 2 cr ≡ 0)
      × ((bit 2 m.control ≡ 0) ⊎ (bit 0 cr ≡ 0))
cleanup_off cpu m =
    let cr = clear m.control cr_i in
    let (events, e) = cleanup-Controls cpu m in
    (
      events,
      without_dcache cr,
      e,
      keeps-zero 12 cr (omega (arith, bit-bit_and 12 m.control (2 ^ 32 - 1 - cr_i))),
      without-dcache cr,
      mmu_off m.control,
    )
