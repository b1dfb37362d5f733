-- ===== src/Cache/Control/Enable.antt =====
-- `enable_caches` of src/cpu.c as a whole.
use qcom_ipq_aux_loader.Base.{
  ℕ, List, ◌≡◌, refl, bit_and, bit_or, ◌==◌, Bool-cases, inl, inr, arith,
}
use qcom_ipq_aux_loader.Base.Bits.{bit_and_low}
use qcom_ipq_aux_loader.Base.Digits.{bit, bit-bit_or}
use qcom_ipq_aux_loader.Machine.Run.{Event, Machine, ok}
use qcom_ipq_aux_loader.Cache.{cr_m, cr_c, cr_i}
use qcom_ipq_aux_loader.Cache.Mmu.{mmu_setup, page_table_memory}
use qcom_ipq_aux_loader.Cache.Control.{cache_enable, enable_caches}
use qcom_ipq_aux_loader.Machine.Memory.{Memory}

-- `enable_caches` returns with both caches and the MMU enabled, and changes nothing but the trace,
-- the control register and, where it sets the page table up, the memory.
pub enable_caches_on :
    (page_table : ℕ) (m : Machine)
    → (events : List Event) × (cr : ℕ) × (mem : Memory) × (enable_caches page_table m
        ≡ ok tt (record m { trace = events; control = cr; memory = mem }))
      × (bit 12 cr ≡ 1)
      × (bit 2 cr ≡ 1)
      × (bit 0 cr ≡ 1)
unfolding enable_caches cache_enable mmu_setup
enable_caches_on pt m =
    let cr = bit_or m.control cr_i in
    elim (Bool-cases (bit_and cr cr_m == 0)) [
      | inl e ↦ rw e (
        _,
        bit_or (bit_or cr cr_m) cr_c,
        page_table_memory pt m.bi_dram_0_start m.bi_dram_0_size m.memory,
        refl,
        omega (
          arith,
          bit-bit_or 12 (bit_or cr cr_m) cr_c,
          bit-bit_or 12 cr cr_m,
          bit-bit_or 12 m.control cr_i,
        ),
        omega (arith, bit-bit_or 2 (bit_or cr cr_m) cr_c),
        omega (arith, bit-bit_or 0 (bit_or cr cr_m) cr_c, bit-bit_or 0 cr cr_m),
      )
      | inr e ↦ rw e (
        _,
        bit_or cr cr_c,
        m.memory,
        refl,
        omega (arith, bit-bit_or 12 cr cr_c, bit-bit_or 12 m.control cr_i),
        omega (arith, bit-bit_or 2 cr cr_c),
        let low = bit_and_low 1 cr in
            let upper = bit-bit_or 0 cr cr_c in ground (arith, low, upper),
      )
    ]
