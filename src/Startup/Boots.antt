-- ===== src/Startup/Boots.antt =====
-- From the boot loader's jump to the head up to the kernel, for a payload with a legacy image.
use qcom_ipq_aux_loader.Base.{ℕ, ◌+◌, ◌^◌, ◌≤◌, ◌<◌, ◌≡◌, ◌⊎◌, sym, ap, ◌∙◌, arith, add32, sub32}
use qcom_ipq_aux_loader.Machine.Memory.{Memory, load8, load32_be}
use qcom_ipq_aux_loader.Machine.Run.{Machine}
use qcom_ipq_aux_loader.Loader.Given.{Build}
use qcom_ipq_aux_loader.Loader.Starts.{Starts, IsLegacy, legacy_boot}
use qcom_ipq_aux_loader.Loader.{legacy_ih_magic}
use qcom_ipq_aux_loader.Loader.Settled.{Settles}
use qcom_ipq_aux_loader.Startup.{Image, initial, start_up}
use qcom_ipq_aux_loader.Startup.Entry.{payload, IsPlaced, start_up-Enters}

-- The payload's bytes `offset` behind its start are a legacy image: the one that the loader finds
-- when the payload is moved.
module _ (b : Build) (image : Image) (n offset : ℕ) (mem : Memory) where
  abbrev pub source : ℕ
  source = payload image + offset

  abbrev pub size : ℕ
  size = load32_be mem (source + 12)

  abbrev pub load : ℕ
  load = load32_be mem (source + 16)

  pub record HasLegacy : Type 0 where
    pub start : b.kernel_data_start ≡ image.text_base + offset
    pub magic : load32_be mem source ≡ legacy_ih_magic
    pub complete : offset + 64 + size ≤ n
    pub room : image.text_base + n + 4 < 2 ^ 32
    pub fits : size ≤ sub32 (sub32 b.kernel_data_end b.kernel_data_start) 64
    pub target : load + size < 2 ^ 32
    pub apart :
        (load ≤ image.text_base + offset + 64) ⊎ (image.text_base + offset + 64 + size ≤ load)

moved_word :
    (from to : Memory) (src dst n k : ℕ)
    → ((j : ℕ) → j < n → load8 to (dst + j) ≡ load8 from (src + j))
    → k + 4 ≤ n
    → load32_be to (dst + k) ≡ load32_be from (src + k)
unfolding load32_be
moved_word from to src dst n k moved h =
    ground (arith, moved k, moved (k + 1), moved (k + 2), moved (k + 3))

module _ (b : Build) (image : Image) (n words offset : ℕ) (from to : Memory)
    (h : IsPlaced b image n words) (l : HasLegacy b image n offset from)
    (moved : (j : ℕ)
      → j < n
      → load8 to (image.text_base + j) ≡ load8 from (payload image + j)) where
  -- The header's words behind the move.
  header_word :
      (k : ℕ)
      → k ≤ 60
      → load32_be to (add32 b.kernel_data_start k)
        ≡ load32_be from (source b image n offset from + k)
  header_word k small =
      let place : add32 b.kernel_data_start k ≡ image.text_base + (offset + k) =
        omega (arith, l.start, l.complete, h.dst_fits) in
      let there : payload image + offset + k ≡ payload image + (offset + k) = omega arith in
      let room : offset + k + 4 ≤ n = omega (arith, l.complete) in
      rw (place, there)
        (moved_word from to (payload image) image.text_base n (offset + k) moved room)

  moved-IsLegacy : IsLegacy b to
  moved-IsLegacy =
      let first : b.kernel_data_start ≡ add32 b.kernel_data_start 0 =
        omega (arith, l.start, l.complete, h.dst_fits) in
      let base : payload image + offset + 0 ≡ payload image + offset = omega arith in
      let size_eq = header_word 12 (omega arith) in
      let load_eq = header_word 16 (omega arith) in
      record {
        magic =
            ap (load32_be to) first
            ∙ header_word 0 (omega arith)
            ∙ ap (load32_be from) base
            ∙ l.magic;
        fits = rw size_eq (l.fits);
        source = omega (arith, size_eq, l.start, l.complete, l.room);
        target = rw (load_eq, size_eq) (l.target);
        apart = rw (load_eq, size_eq, l.start) (l.apart);
      }

  -- A byte of the kernel behind the move.
  moved_byte :
      (j : ℕ)
      → j < size b image n offset from
      → load8 to (b.kernel_data_start + 64 + j) ≡ load8 from (source b image n offset from + 64 + j)
  moved_byte j lt =
      let place : b.kernel_data_start + 64 + j ≡ image.text_base + (offset + 64 + j) =
        omega (arith, l.start) in
      let there : payload image + offset + 64 + j ≡ payload image + (offset + 64 + j) =
        omega arith in
      rw (place, there) (moved (offset + 64 + j) (omega (arith, l.complete)))

-- From the boot loader's jump to the kernel: with the head in a place where its payload can be
-- moved, a payload that holds a complete legacy image, architecture 4200, and either no
-- RB3011_PREINITS or a timer whose counter runs with a loop bound above 33 times the readings that
-- it takes to move, the kernel is called at the entry point of the image's header, with 4200 as
-- second parameter and both caches off, and its bytes at the load address are those of the payload
-- in its first place.
pub start_up-Starts :
    (b : Build) (image : Image) (n words offset : ℕ) (m : Machine)
    → Settles b m
    → IsPlaced b image n words
    → HasLegacy b image n offset m.memory
    → (m' : Machine) × Starts b.cpu m' (start_up b image 4200 m)
      × (m'.kernel_entry ≡ load32_be m.memory (source b image n offset m.memory + 20))
      × (m'.kernel_p1 ≡ 4200)
      × ((j : ℕ)
          → j < size b image n offset m.memory
          → load8 m'.memory (load b image n offset m.memory + j)
            ≡ load8 m.memory (source b image n offset m.memory + 64 + j))
start_up-Starts b image n words offset m plain h l =
    let entry = start_up-Enters b image n words 4200 m h in
    let header = header_word b image n words offset m.memory entry.memory h l entry.moved in
    let legacy = moved-IsLegacy b image n words offset m.memory entry.memory h l entry.moved in
    let byte = moved_byte b image n words offset m.memory entry.memory h l entry.moved in
    let ready = initial (record m { trace = entry.trace; memory = entry.memory }) in
    let (m', starts, at, arch, copied) = legacy_boot b ready plain legacy in
    (
      m',
      rw entry.calls starts,
      at ∙ header 20 (omega arith),
      arch,
      λ j lt.
          ap (λ a. load8 m'.memory (a + j)) (sym (header 16 (omega arith)))
          ∙ copied.inside j (rw (header 12 (omega arith)) lt)
          ∙ byte j lt,
    )
