-- ===== src/Cache/Mmu/Table.antt =====
-- What the page table holds after `mmu_setup`.
use qcom_ipq_aux_loader.Base.{
  ℕ, zero, suc, ◌+◌, ◌-◌, ◌*◌, ◌/◌, ◌^◌, ◌<◌, ◌≤◌, ◌≡◌, ◌≢◌, add32, shl32, shr, arith, ◌==◌,
  if◌then◌else◌, ◌&&◌, leb, ltb, Bool, Bool-cases, inl, inr, not,
}
use qcom_ipq_aux_loader.Machine.Memory.{Memory, load32}
use qcom_ipq_aux_loader.Machine.Memory.Laws.{load32-store32, load32-store32_apart}
use qcom_ipq_aux_loader.Base.Bits.{bit_or_add}
use qcom_ipq_aux_loader.Cache.Mmu.{
  cache_setup, section, set_entry, map_all, map_cached, dram_bank_mmu_setup, page_table_memory,
}

-- `page_table[i]`
abbrev pub entry : Memory → ℕ → ℕ → ℕ
entry mem page_table i = load32 mem (page_table + 4 * i)

-- An identity section as a number.
section_lem :
    (i flags : ℕ) → i < 4096 → flags < 2 ^ 10 → section i flags ≡ i * 2 ^ 20 + 3 * 2 ^ 10 + flags
section_lem i flags h f =
    let at : shl32 i 20 ≡ i * 2 ^ 20 = omega arith in
    let whole : i * 2 ^ 20 + 3 * 2 ^ 10 ≡ (i * 2 ^ 10 + 3) * 2 ^ 10 = omega arith in
    rw
      (
        at,
        bit_or_add 20 i (3 * 2 ^ 10) (omega arith),
        whole,
        bit_or_add 10 (i * 2 ^ 10 + 3) flags f,
      )
      (omega arith)

module _ (pt : ℕ) (room : pt + 2 ^ 14 < 2 ^ 32) where
  entry-set_entry :
      (mem : Memory) (i j v : ℕ)
      → i < 4096
      → j < 4096
      → v < 2 ^ 32
      → entry (set_entry mem pt i v) pt j ≡ (if i == j then v else entry mem pt j)
  entry-set_entry mem i j v hi hj small =
      let at : add32 pt (4 * i) ≡ pt + 4 * i = omega arith in
      elim (Bool-cases (i == j)) [
        | inl e ↦
            let same : i ≡ j = ground arith in
            rw (e, at, same) (load32-store32 mem (pt + 4 * j) v (omega arith) small)
        | inr e ↦
            let other : i ≢ j = ground arith in
            rw (e, at)
              (load32-store32_apart mem (pt + 4 * i) v (pt + 4 * j) (omega arith) (omega arith)
                (omega arith))
      ]

  entry-map_all :
      (left i j : ℕ) (mem : Memory)
      → i + left ≤ 4096
      → j < 4096
      → entry (map_all pt i left mem) pt j
        ≡ (if leb i j && ltb j (i + left) then section j 0x12 else entry mem pt j)
  unfolding map_all
  entry-map_all zero i j mem h hj = ground arith
  entry-map_all (suc left) i j mem h hj =
      let rest =
        entry-map_all left (i + 1) j (set_entry mem pt i (section i 0x12)) (omega arith) hj in
      let first =
        entry-set_entry mem i j (section i 0x12) (omega arith) hj
          (omega (arith, section_lem i 0x12 (omega arith) (omega arith))) in
      ground arith

  entry-map_cached :
      (left i j : ℕ) (mem : Memory)
      → i + left ≤ 4096
      → j < 4096
      → entry (map_cached pt i left mem) pt j ≡ (
          if leb i j && (ltb j (i + left) && not (j == shr pt 20))
          then section j cache_setup
          else entry mem pt j)
  unfolding map_cached
  entry-map_cached zero i j mem h hj = ground arith
  entry-map_cached (suc left) i j mem h hj =
      let first =
        entry-set_entry mem i j (section i cache_setup) (omega arith) hj
          (omega (arith, section_lem i cache_setup (omega arith) (omega arith))) in
      elim (Bool-cases (i == shr pt 20)) [
        | inl e ↦
            rw e (let rest = entry-map_cached left (i + 1) j mem (omega arith) hj in ground arith)
        | inr e ↦ rw e (
            let rest =
              entry-map_cached left (i + 1) j (set_entry mem pt i (section i cache_setup))
                (omega arith) hj in
            ground arith)
      ]

-- Whether the megabyte `j` is in the cached range and does not hold the page table.
abbrev pub is_cached : ℕ → ℕ → ℕ → ℕ → Bool
is_cached pt start size j =
    leb (start / 2 ^ 20) j && (ltb j ((start + size) / 2 ^ 20) && not (j == pt / 2 ^ 20))

-- For a page table and a range inside the address space, every entry maps its megabyte to itself
-- with the same access bits, cached exactly in the whole megabytes of the range but for the one in
-- which the page table starts.
pub page_table_lem :
    (pt start size j : ℕ) (mem : Memory)
    → pt + 2 ^ 14 < 2 ^ 32
    → start + size < 2 ^ 32
    → j < 4096
    → entry (page_table_memory pt start size mem) pt j
      ≡ j * 2 ^ 20 + 3 * 2 ^ 10 + (if is_cached pt start size j then cache_setup else 0x12)
unfolding page_table_memory dram_bank_mmu_setup
page_table_lem pt start size j mem room inside h =
    let first = shr start 20 in
    let total : add32 start size ≡ start + size = omega arith in
    let mapped = entry-map_all pt room 4096 0 j mem (omega arith) h in
    let cached =
      entry-map_cached pt room (shr (start + size) 20 - first) first j (map_all pt 0 4096 mem)
        (omega arith) h in
    let plain = section_lem j 0x12 h (omega arith) in
    let special = section_lem j cache_setup h (omega arith) in rw total (ground arith)
