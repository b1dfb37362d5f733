-- ===== src/Loader/Legacy/Handler.antt =====
-- Both branches of `handle_legacy_header`.
use qcom_ipq_aux_loader.Base.{
  ℕ, ◌+◌, ◌^◌, ◌≤◌, ◌<◌, List, [], ◌∷◌, ◌++◌, codes, refl, ◌≡◌, ◌⊎◌, some, arith, add32, sub32,
  lt→ltb, le→ltb,
}
use qcom_ipq_aux_loader.Base.Int.{pos, minus}
use qcom_ipq_aux_loader.Machine.Run.{Machine, ok}
use qcom_ipq_aux_loader.Machine.Memory.{Memory, load32_be}
use qcom_ipq_aux_loader.Machine.Memory.Laws.{load32-lt}
use qcom_ipq_aux_loader.Board.Swap.{ntohl-load32, ntohl-lt}
use qcom_ipq_aux_loader.Machine.Console.{say, puts}
use qcom_ipq_aux_loader.Machine.Console.Says.{Says, print-Says, print-then, puts-append}
use qcom_ipq_aux_loader.Printf.Format.{word}
use qcom_ipq_aux_loader.Printf.Format.Typed.{typed}
use qcom_ipq_aux_loader.Loader.Memcpy.{my_memcpy}
use qcom_ipq_aux_loader.Loader.Memcpy.Copies.{Copied, memcpy-Copied}
use qcom_ipq_aux_loader.Loader.Given.{copy}
use qcom_ipq_aux_loader.Loader.Legacy.{
  sizeof_legacy_header, legacy_mismatch, legacy_copy, handle_legacy_header,
}

mismatch-Says :
    (len size : ℕ)
    → len < 2 ^ 32
    → size < 2 ^ 32
    → (m : Machine) → Says (minus 99) m (legacy_mismatch len size m)
unfolding legacy_mismatch typed
mismatch-Says len size a b m = print-then (codes "\n") [] _ _ m refl tt λ s.
    print-then (codes "Error ! Kernel sizes mismath detected !\n") [] _ _ _ refl tt λ t.
      print-then (codes "  details: %d - %d < %d !\n") (word len ∷ word 64 ∷ word size ∷ []) _ _ _
        refl (a, (omega arith, (b, tt))) λ u. ([], refl)

-- The header's fields as numbers.
abbrev pub ih_size : Memory → ℕ → ℕ
ih_size mem image = load32_be mem (add32 image 12)

abbrev pub ih_load : Memory → ℕ → ℕ
ih_load mem image = load32_be mem (add32 image 16)

abbrev pub ih_ep : Memory → ℕ → ℕ
ih_ep mem image = load32_be mem (add32 image 20)

-- Printed, and then loaded and ready to be started.
abbrev pub with_kernel : Machine → List ℕ → Memory → ℕ → Machine
with_kernel m s mem entry = record m { trace = puts s m.trace; memory = mem; kernel_entry = entry }

pub ih_size-lt : (mem : Memory) (image : ℕ) → ih_size mem image < 2 ^ 32
ih_size-lt mem image =
    omega (arith, ntohl-load32 mem (add32 image 12), ntohl-lt _ (load32-lt mem (add32 image 12)))

legacy_copy-loaded :
    (dst src n ep : ℕ) (m : Machine) (mem' : Memory)
    → my_memcpy m.memory dst src n ≡ some mem'
    → (t : List ℕ) × (legacy_copy dst src n ep m ≡ ok (pos 0) (with_kernel m t mem' ep))
unfolding legacy_copy copy typed
legacy_copy-loaded dst src n ep m mem' e =
    let (s, f) = print-Says (codes "Copy kernel...") [] refl tt m in
    let (t, g) = print-Says (codes "Done\n") [] refl tt (record (say s m) { memory = mem' }) in
    (s ++ t, rw (f, e, g, puts-append) refl)

-- Where the header announces a larger body than follows it (the 32-bit difference of the image
-- length and 64), the handler returns -99 and has only printed.
pub legacy_too_large :
    (m : Machine) (image kern_image_len : ℕ)
    → kern_image_len < 2 ^ 32
    → sub32 kern_image_len sizeof_legacy_header < ih_size m.memory image
    → Says (minus 99) m (handle_legacy_header image kern_image_len m)
unfolding handle_legacy_header
legacy_too_large m image len b h =
    rw (ntohl-load32, lt→ltb _ _ h)
      (mismatch-Says len (ih_size m.memory image) b (ih_size-lt m.memory image) m)

-- Where the body fits and its copy ends, the handler returns 0 with the entry point set.
pub legacy_fits_lem :
    (m : Machine) (image kern_image_len : ℕ) (mem' : Memory)
    → ih_size m.memory image ≤ sub32 kern_image_len sizeof_legacy_header
    → image + sizeof_legacy_header < 2 ^ 32
    → my_memcpy m.memory
        (ih_load m.memory image)
        (image + sizeof_legacy_header)
        (ih_size m.memory image)
      ≡ some mem'
    → (s : List ℕ) × (handle_legacy_header image kern_image_len m
        ≡ ok (pos 0) (with_kernel m s mem' (ih_ep m.memory image)))
unfolding handle_legacy_header
legacy_fits_lem m image len mem' fits inside e =
    let at : add32 image 64 ≡ image + 64 = omega arith in
    let (s, f) =
      legacy_copy-loaded (ih_load m.memory image) (image + 64) (ih_size m.memory image)
        (ih_ep m.memory image) m mem' e in
    (s, rw (ntohl-load32, ntohl-load32, ntohl-load32, at, le→ltb _ _ fits) f)

-- Where the body fits, source and target stand in the address space, and the target does not start
-- inside the source behind its first byte, the handler returns 0, the body stands at the load
-- address, no other byte has changed, `kernel_entry` is the header's entry point, and else only the
-- trace has changed.
pub legacy-Copied :
    (m : Machine) (image kern_image_len : ℕ)
    → ih_size m.memory image ≤ sub32 kern_image_len sizeof_legacy_header
    → image + sizeof_legacy_header + ih_size m.memory image + 4 < 2 ^ 32
    → ih_load m.memory image + ih_size m.memory image < 2 ^ 32
    → (ih_load m.memory image ≤ image + sizeof_legacy_header)
      ⊎ (image + sizeof_legacy_header + ih_size m.memory image ≤ ih_load m.memory image)
    → (s : List ℕ) × (mem' : Memory) × (handle_legacy_header image kern_image_len m
        ≡ ok (pos 0) (with_kernel m s mem' (ih_ep m.memory image)))
      × Copied m.memory
          (ih_load m.memory image)
          (image + sizeof_legacy_header)
          (ih_size m.memory image)
          mem'
legacy-Copied m image len fits a b apart =
    let (mem', e, c) =
      memcpy-Copied m.memory (ih_load m.memory image) (image + 64) (ih_size m.memory image) a b
        apart in
    let (s, f) = legacy_fits_lem m image len mem' fits (omega arith) e in (s, mem', f, c)
