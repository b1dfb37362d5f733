-- ===== src/Cache/Invariant.antt =====
-- The operations of src/cpu.c in any order, as the steps of a state machine.
use qcom_ipq_aux_loader.Base.{
  ℕ, ◌-◌, ◌≤◌, ◌^◌, ◌≡◌, refl, List, [], ◌∷◌, Bool-cases, inl, inr, bit_and, bit_or, ◌==◌, arith,
}
use qcom_ipq_aux_loader.Base.Bits.{bit_and_low}
use qcom_ipq_aux_loader.Base.Digits.{bit, bit-bit_and, bit-bit_or}
use qcom_ipq_aux_loader.Machine.Memory.{Memory}
use qcom_ipq_aux_loader.Machine.Run.{Event, Machine, M, Run, ok, pure, and_then, ◌>>◌}
use qcom_ipq_aux_loader.Drivers.Cpu.{Cpu}
use qcom_ipq_aux_loader.Cache.{cr_m, cr_c, cr_i, flush_dcache_all, invalidate_dcache_all}
use qcom_ipq_aux_loader.Cache.Quiet.{Quiet, flush-Quiet, invalidate-Quiet}
use qcom_ipq_aux_loader.Cache.Mmu.{mmu_setup, page_table_memory}
use qcom_ipq_aux_loader.Cache.Control.{
  clear, cache_enable, enable_caches, cache_disable, icache_disable, dcache_disable,
  disable_interrupts, invalidate_icache_all, clear_l2cache_err, cleanup_before_linux,
}
use qcom_ipq_aux_loader.Cache.Control.Cleanup.{
  without_dcache, without-dcache, Controls, dcache_disable-Controls, clear_l2-Quiet,
  cleanup-Controls,
}

-- The functions of the file that other files call, and the static ones that switch.
pub data Operation : Type 0 where
  enable_all flush invalidate icache_off dcache_off interrupts_off icache_flush set_up_mmu :
      Operation
  enable_icache enable_dcache : Operation
  clear_l2 clean_up : Cpu → Operation

unfoldable pub perform : ℕ → Operation → M (Unit {0})
perform page_table enable_all = enable_caches page_table
perform page_table enable_icache = cache_enable page_table cr_i
perform page_table enable_dcache = cache_enable page_table cr_c
perform page_table set_up_mmu = mmu_setup page_table
perform page_table flush = flush_dcache_all
perform page_table invalidate = invalidate_dcache_all
perform page_table icache_off = icache_disable
perform page_table dcache_off = dcache_disable
perform page_table interrupts_off = disable_interrupts
perform page_table icache_flush = invalidate_icache_all
perform page_table (clear_l2 cpu) = clear_l2cache_err cpu
perform page_table (clean_up cpu) = cleanup_before_linux cpu

unfoldable pub perform_all : ℕ → List Operation → M (Unit {0})
unfolding perform
perform_all page_table [] = pure tt
perform_all page_table (op ∷ ops) = do perform page_table op; perform_all page_table ops

-- The data cache is never on without the MMU.
abbrev pub IsCoherent : ℕ → Type 0
IsCoherent cr = bit 2 cr ≤ bit 0 cr

-- A run that returns with a coherent control register, and has changed nothing but it, the trace
-- and the memory.
abbrev pub Keeps : Machine → Run (Unit {0}) → Type 0
Keeps m r =
    (events : List Event) × (cr : ℕ) × (mem : Memory) × (r
      ≡ ok tt (record m { trace = events; control = cr; memory = mem }))
    × IsCoherent cr

Quiet-Keeps : (m : Machine) (r : Run (Unit {0})) → Quiet tt m r → IsCoherent m.control → Keeps m r
Quiet-Keeps m r (events, e) h = (events, m.control, m.memory, e, h)

Controls-Keeps :
    (cr : ℕ) (m : Machine) (r : Run (Unit {0})) → Controls cr m r → IsCoherent cr → Keeps m r
Controls-Keeps cr m r (events, e) h = (events, cr, m.memory, e, h)

or_m-IsCoherent : (cr : ℕ) → IsCoherent (bit_or cr cr_m)
or_m-IsCoherent cr = omega (arith, bit-bit_or 0 cr cr_m)

or_i-IsCoherent : (cr : ℕ) → IsCoherent cr → IsCoherent (bit_or cr cr_i)
or_i-IsCoherent cr h = omega (arith, bit-bit_or 0 cr cr_i, bit-bit_or 2 cr cr_i)

without_i-IsCoherent : (cr : ℕ) → IsCoherent cr → IsCoherent (clear cr cr_i)
without_i-IsCoherent cr h =
    omega (arith, bit-bit_and 0 cr (2 ^ 32 - 1 - cr_i), bit-bit_and 2 cr (2 ^ 32 - 1 - cr_i))

without_dcache-IsCoherent : (cr : ℕ) → IsCoherent (without_dcache cr)
without_dcache-IsCoherent cr = omega (arith, without-dcache cr)

mmu_setup-Keeps : (page_table : ℕ) (m : Machine) → Keeps m (mmu_setup page_table m)
unfolding mmu_setup
mmu_setup-Keeps page_table m = (
  _,
  bit_or m.control cr_m,
  page_table_memory page_table m.bi_dram_0_start m.bi_dram_0_size m.memory,
  refl,
  or_m-IsCoherent m.control,
)

enable_icache-Keeps :
    (page_table : ℕ) (m : Machine) → IsCoherent m.control → Keeps m (cache_enable page_table cr_i m)
unfolding cache_enable
enable_icache-Keeps page_table m h = (_, _, m.memory, refl, or_i-IsCoherent m.control h)

enable_dcache-Keeps : (page_table : ℕ) (m : Machine) → Keeps m (cache_enable page_table cr_c m)
unfolding cache_enable mmu_setup
enable_dcache-Keeps page_table m = elim (Bool-cases (bit_and m.control cr_m == 0)) [
  | inl e ↦ rw e (
    _,
    bit_or (bit_or m.control cr_m) cr_c,
    page_table_memory page_table m.bi_dram_0_start m.bi_dram_0_size m.memory,
    refl,
    omega (arith, bit-bit_or 0 (bit_or m.control cr_m) cr_c, bit-bit_or 0 m.control cr_m),
  )
  | inr e ↦ rw e (
    _,
    bit_or m.control cr_c,
    m.memory,
    refl,
    (let low = bit_and_low 1 m.control in
        let upper = bit-bit_or 0 m.control cr_c in ground (arith, low, upper)),
  )
]

Keeps-then :
    (r : Run (Unit {0})) (k : Unit {0} → M (Unit {0})) (m : Machine)
    → Keeps m r
    → ((events : List Event) (cr : ℕ) (mem : Memory)
        → IsCoherent cr
        → Keeps m (k tt (record m { trace = events; control = cr; memory = mem })))
    → Keeps m (and_then r k)
Keeps-then r k m (events, cr, mem, e, h) rest =
    let (events', cr', mem', f, g) = rest events cr mem h in (events', cr', mem', rw e f, g)

perform-Keeps :
    (page_table : ℕ) (op : Operation) (m : Machine)
    → IsCoherent m.control
    → Keeps m (perform page_table op m)
unfolding perform icache_disable cache_disable disable_interrupts invalidate_icache_all
    enable_caches
perform-Keeps page_table enable_all m h =
    Keeps-then _ _ m (enable_icache-Keeps page_table m h) λ events cr mem g.
      enable_dcache-Keeps page_table (record m { trace = events; control = cr; memory = mem })
perform-Keeps page_table enable_icache m h = enable_icache-Keeps page_table m h
perform-Keeps page_table enable_dcache m h = enable_dcache-Keeps page_table m
perform-Keeps page_table set_up_mmu m h = mmu_setup-Keeps page_table m
perform-Keeps page_table flush m h = Quiet-Keeps m _ (flush-Quiet m) h
perform-Keeps page_table invalidate m h = Quiet-Keeps m _ (invalidate-Quiet m) h
perform-Keeps page_table icache_off m h = (_, _, m.memory, refl, without_i-IsCoherent m.control h)
perform-Keeps page_table dcache_off m h =
    Controls-Keeps _ m _ (dcache_disable-Controls m) (without_dcache-IsCoherent m.control)
perform-Keeps page_table interrupts_off m h = (_, m.control, m.memory, refl, h)
perform-Keeps page_table icache_flush m h = (_, m.control, m.memory, refl, h)
perform-Keeps page_table (clear_l2 cpu) m h = Quiet-Keeps m _ (clear_l2-Quiet cpu m) h
perform-Keeps page_table (clean_up cpu) m h =
    Controls-Keeps _ m _ (cleanup-Controls cpu m) (without_dcache-IsCoherent (clear m.control cr_i))

-- Any sequence of the operations that switch, flush or invalidate the caches and the MMU returns,
-- and where it starts with the data cache off or the MMU on, it ends so: the data cache is never
-- on without the MMU. Of the machine only the trace, the control register and the memory change.
pub perform_all-Keeps :
    (page_table : ℕ) (ops : List Operation) (m : Machine)
    → IsCoherent m.control
    → Keeps m (perform_all page_table ops m)
unfolding perform_all
perform_all-Keeps page_table [] m h = (m.trace, m.control, m.memory, refl, h)
perform_all-Keeps page_table (op ∷ ops) m h =
    Keeps-then _ _ m (perform-Keeps page_table op m h) λ events cr mem g.
      perform_all-Keeps page_table ops (record m { trace = events; control = cr; memory = mem }) g
