-- ===== src/Cache/Control/Order.antt =====
-- The order in which src/cpu.c writes the data cache back, switches it off and invalidates it.

use qcom_ipq_aux_loader.Base.{
  ℕ, ◌-◌, ◌/◌, ◌^◌, List, [], ◌∷◌, ◌++◌, refl, ◌≡◌, ◌==◌, bit_and, bit_or, u32, true, arith,
}
use qcom_ipq_aux_loader.Base.Bits.{bit_and_digit, bit_and_low}
use qcom_ipq_aux_loader.Base.Digits.{bit, bit-bit_and}
use qcom_ipq_aux_loader.Machine.Run.{
  Event, mcr, sctlr, dccisw, dcisw, isb, dsb, bpiall, iciallu, cpsr, Machine, Run, ok,
}
use qcom_ipq_aux_loader.Drivers.Cpu.{Cpu, ipq4xxx, ipq806x}
use qcom_ipq_aux_loader.Cache.{cr_c, cr_m, cr_i, flush_dcache_all, invalidate_dcache_all}
use qcom_ipq_aux_loader.Cache.Levels.{IsCache, Covers, Maintains, v7_maint_dcache_all-Maintains}
use qcom_ipq_aux_loader.Cache.Control.{
  clear, cache_disable, disable_data, icache_disable, flush_and_disable, dcache_disable,
  disable_interrupts, invalidate_icache_all, clear_l2cache_err, set_l2_indirect_reg,
  get_l2_indirect_reg, cleanup_before_linux,
}

-- The test of `cache_disable`, for the data cache's bit.
is_on : (reg : ℕ) → bit 2 reg ≡ 1 → (bit_and reg cr_c == cr_c) ≡ true
is_on reg h =
    ground (arith, bit_and_digit reg 4, bit_and_digit (reg / 2) 2, bit_and_low 1 (reg / 2 / 2))

-- A run that adds events to the trace and changes nothing else.
abbrev Adds : List Event → Machine → Run (Unit {0}) → Type 0
Adds issued m r = r ≡ ok tt (record m { trace = issued ++ m.trace })

l2_events :
    (cpu : Cpu) (m : Machine) → (issued : List Event) × Adds issued m (clear_l2cache_err cpu m)
unfolding clear_l2cache_err set_l2_indirect_reg get_l2_indirect_reg
l2_events ipq4xxx m = ([], refl)
l2_events ipq806x m = (_ ∷ _ ∷ _ ∷ _ ∷ _ ∷ _ ∷ [], refl)

module _ (ids : ℕ) (size : ℕ → ℕ) where
  flush-Maintains :
      (m : Machine)
      → IsCache m.coprocessor ids size
      → Maintains dccisw ids size 0 7 m (flush_dcache_all m)
  unfolding flush_dcache_all
  flush-Maintains m cache =
      let (issued, e, covers) = v7_maint_dcache_all-Maintains dccisw ids size m cache in
      (issued, rw e refl, covers)

  invalidate-Maintains :
      (m : Machine)
      → IsCache m.coprocessor ids size
      → Maintains dcisw ids size 0 7 m (invalidate_dcache_all m)
  unfolding invalidate_dcache_all
  invalidate-Maintains m cache =
      let (issued, e, covers) = v7_maint_dcache_all-Maintains dcisw ids size m cache in
      (issued, rw e refl, covers)

  dcache_disable-Maintains :
      (m : Machine)
      → IsCache m.coprocessor ids size
      → bit 2 m.control ≡ 1
      → (written : List Event) × (dcache_disable m
          ≡ ok tt (record m {
            trace = mcr sctlr (clear m.control (bit_or cr_c cr_m)) ∷ written ++ m.trace;
            control = clear m.control (bit_or cr_c cr_m);
          }))
        × Covers dccisw ids size 0 7 written
  unfolding dcache_disable cache_disable disable_data flush_and_disable
  dcache_disable-Maintains m cache on =
      let (written, e, covers) = flush-Maintains m cache in
      (written, rw (is_on m.control on, e) refl, covers)

-- With caches that always announce the same levels in CLIDR, whose CCSIDR answers by the selected
-- level alone, and of which every level that holds data has at least two ways and room for its sets
-- and lines below the way field, and with the data cache enabled: `cleanup_before_linux` returns
-- with both caches and the MMU disabled, and changes nothing but the trace and the control
-- register. Before it stores the control register with the data cache's bit cleared, it has cleaned
-- and invalidated every set and way of each level that holds data; behind that store, it has
-- invalidated every set and way of these levels again.
pub cleanup_before_linux-WritesBack :
    (cpu : Cpu) (ids : ℕ) (size : ℕ → ℕ) (m : Machine)
    → IsCache m.coprocessor ids size
    → bit 2 m.control ≡ 1
    → (last dropped written first : List Event) × (cr : ℕ) × (cleanup_before_linux cpu m
        ≡ ok tt (record m {
          trace = last ++ (dropped ++ mcr sctlr cr ∷ (written ++ (first ++ m.trace)));
          control = cr;
        }))
      × Covers dccisw ids size 0 7 written
      × Covers dcisw ids size 0 7 dropped
      × (bit 12 cr ≡ 0)
      × (bit 2 cr ≡ 0)
      × (bit 0 cr ≡ 0)
unfolding cleanup_before_linux disable_interrupts icache_disable cache_disable invalidate_icache_all
cleanup_before_linux-WritesBack cpu ids size m cache on =
    let reg = clear m.control cr_i in
    let still : bit 2 reg ≡ 1 = omega (arith, bit-bit_and 2 m.control (2 ^ 32 - 1 - cr_i)) in
    let cr = clear reg (bit_or cr_c cr_m) in
    let first =
      mcr isb 0
      ∷ mcr dsb 0
      ∷ mcr bpiall 0
      ∷ mcr iciallu 0
      ∷ mcr sctlr reg
      ∷ mcr cpsr (bit_or (u32 (m.coprocessor m.trace cpsr)) 0xc0)
      ∷ [] in
    let m' = record m { trace = first ++ m.trace; control = reg } in
    let (written, e, cleaned) = dcache_disable-Maintains ids size m' cache still in
    let off = record m' { trace = mcr sctlr cr ∷ written ++ m'.trace; control = cr } in
    let (dropped, f, invalidated) = invalidate-Maintains ids size off cache in
    let (errors, g) = l2_events cpu (record off { trace = dropped ++ off.trace }) in
    (
      mcr isb 0 ∷ mcr dsb 0 ∷ errors,
      dropped,
      written,
      first,
      cr,
      rw (e, f, g) refl,
      cleaned,
      invalidated,
      omega (
        arith,
        bit-bit_and 12 reg (2 ^ 32 - 1 - 5),
        bit-bit_and 12 m.control (2 ^ 32 - 1 - cr_i),
      ),
      omega (arith, bit-bit_and 2 reg (2 ^ 32 - 1 - 5)),
      omega (arith, bit-bit_and 0 reg (2 ^ 32 - 1 - 5)),
    )
