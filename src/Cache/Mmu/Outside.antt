-- ===== src/Cache/Mmu/Outside.antt =====
-- The memory that the page table of src/cpu.c does not take.
use qcom_ipq_aux_loader.Base.{
  ℕ, zero, suc, ◌+◌, ◌*◌, ◌^◌, ◌≤◌, ◌<◌, ◌≡◌, ◌⊎◌, List, refl, ◌∙◌, arith, add32, shr, bit_and,
  bit_or, ◌==◌, Bool-cases, inl, inr,
}
use qcom_ipq_aux_loader.Machine.Memory.{Memory, load8}
use qcom_ipq_aux_loader.Machine.Memory.Laws.{load8-store32}
use qcom_ipq_aux_loader.Machine.Run.{Event, Machine, ok}
use qcom_ipq_aux_loader.Cache.{cr_m, cr_c, cr_i}
use qcom_ipq_aux_loader.Cache.Mmu.{
  section, cache_setup, set_entry, map_all, map_cached, dram_bank_mmu_setup, page_table_memory,
  mmu_setup,
}
use qcom_ipq_aux_loader.Cache.Control.{cache_enable, enable_caches}

-- A byte outside the 4096 words of a table below the end of the address space.
module _ (pt : ℕ) (fits : pt + 16384 ≤ 2 ^ 32) (a : ℕ) (small : a < 2 ^ 32)
    (out : (a < pt) ⊎ (pt + 16384 ≤ a)) where
  load8-set_entry :
      (mem : Memory) (i v : ℕ) → i < 4096 → load8 (set_entry mem pt i v) a ≡ load8 mem a
  load8-set_entry mem i v h =
      let at : add32 pt (4 * i) ≡ pt + 4 * i = omega arith in
      rw at (ground (arith, load8-store32 mem (pt + 4 * i) v a))

  load8-map_all :
      (i left : ℕ) (mem : Memory) → i + left ≤ 4096 → load8 (map_all pt i left mem) a ≡ load8 mem a
  unfolding map_all
  load8-map_all i zero mem h = refl
  load8-map_all i (suc left) mem h =
      load8-map_all (i + 1) left _ (omega arith)
      ∙ load8-set_entry mem i (section i 0x12) (omega arith)

  load8-map_cached :
      (i left : ℕ) (mem : Memory)
      → i + left ≤ 4096
      → load8 (map_cached pt i left mem) a ≡ load8 mem a
  unfolding map_cached
  load8-map_cached i zero mem h = refl
  load8-map_cached i (suc left) mem h = elim (Bool-cases (i == shr pt 20)) [
    | inl e ↦ rw e (load8-map_cached (i + 1) left mem (omega arith))
    | inr e ↦ rw e (
        load8-map_cached (i + 1) left _ (omega arith)
        ∙ load8-set_entry mem i (section i cache_setup) (omega arith))
  ]

  pub load8-page_table :
      (start size : ℕ) (mem : Memory)
      → start < 2 ^ 32
      → load8 (page_table_memory pt start size mem) a ≡ load8 mem a
  unfolding page_table_memory dram_bank_mmu_setup
  load8-page_table start size mem h =
      load8-map_cached (shr start 20) _ _ (omega arith) ∙ load8-map_all 0 4096 mem (omega arith)

-- `enable_caches` leaves the memory outside the page table as it is.
pub enable_caches_outside :
    (pt : ℕ) (m : Machine)
    → pt + 16384 ≤ 2 ^ 32
    → m.bi_dram_0_start < 2 ^ 32
    → (events : List Event) × (cr : ℕ) × (mem : Memory) × (enable_caches pt m
        ≡ ok tt (record m { trace = events; control = cr; memory = mem }))
      × ((a : ℕ) → a < 2 ^ 32 → (a < pt) ⊎ (pt + 16384 ≤ a) → load8 mem a ≡ load8 m.memory a)
unfolding enable_caches cache_enable mmu_setup
enable_caches_outside pt m fits start =
    elim (Bool-cases (bit_and (bit_or m.control cr_i) cr_m == 0)) [
      | inl e ↦ rw e (
        _,
        bit_or (bit_or (bit_or m.control cr_i) cr_m) cr_c,
        page_table_memory pt m.bi_dram_0_start m.bi_dram_0_size m.memory,
        refl,
        λ a small out.
            load8-page_table pt fits a small out m.bi_dram_0_start m.bi_dram_0_size m.memory start,
      )
      | inr e ↦ rw e (_, bit_or (bit_or m.control cr_i) cr_c, m.memory, refl, λ a small out. refl)
    ]
