-- ===== src/Tests/Moved.antt =====
-- The start-up code before a blob that is no tree.
use qcom_ipq_aux_loader.Base.{ℕ, ◌+◌, ◌-◌, ◌*◌, ◌%◌, ◌≤◌, ◌<◌, ◌^◌, ◌≡◌, ◌∙◌, refl, inl, inr, arith}
use qcom_ipq_aux_loader.Machine.Memory.{Memory, load8, load32_be}
use qcom_ipq_aux_loader.Machine.Memory.Laws.{load8-lt}
use qcom_ipq_aux_loader.Board.Swap.{ntohl-load32}
use qcom_ipq_aux_loader.Drivers.Cpu.{ipq806x}
use qcom_ipq_aux_loader.Fdt.{word}
use qcom_ipq_aux_loader.Fdt.Local.{Same, word_same}
use qcom_ipq_aux_loader.Fdt.Finishes.{IsBounded}
use qcom_ipq_aux_loader.Loader.Given.{Build}
use qcom_ipq_aux_loader.Loader.Meets.{FitBounded}
use qcom_ipq_aux_loader.Loader.Every.{Concludes}
use qcom_ipq_aux_loader.Startup.{Image, start_up}
use qcom_ipq_aux_loader.Startup.Entry.{IsPlaced}
use qcom_ipq_aux_loader.Startup.Linked.{as_linked}
use qcom_ipq_aux_loader.Startup.Concludes.{start_up-Concludes}
use qcom_ipq_aux_loader.Tests.Data.{bytes_at, board, machine}
use qcom_ipq_aux_loader.Tests.Garbled.{garbled, byte-small}
use qcom_ipq_aux_loader.Tests.Fit.{decoder-Answers}
use qcom_ipq_aux_loader.Tests.Machines.{image}

abbrev moved_build : Build
moved_build = record (board 64) { kernel_data_start = 0x8480_0000; kernel_data_end = 0x8480_0040 }

abbrev moved_image : Image
moved_image = record image { start = 4056; payload_data_end_ofs = 104 }

moved-IsPlaced : IsPlaced moved_build moved_image 64 8
moved-IsPlaced = record {
  size = refl;
  nonempty = omega arith;
  src_fits = omega arith;
  dst_fits = omega arith;
  apart = inr (omega arith);
  bss_size = refl;
  bss_fits = omega arith;
  bss_behind = omega arith;
  rounds = omega arith;
  bss_rounds = omega arith;
}

linked_small :
    (a : ℕ)
    → 0x8480_0004 ≤ a
    → a < 0x8480_0040
    → load8 (as_linked moved_image 64 (bytes_at garbled)) a < 101
unfolding load8 as_linked
linked_small a h g =
    let whole : a % 2 ^ 32 ≡ a = omega arith in
    ground (arith, byte-small (a - 0x8480_0000) (omega arith))

module _ (mem : Memory)
    (same : Same (as_linked moved_image 64 (bytes_at garbled)) mem 0x8480_0000 0x8480_0040) where
  length-small : (a : ℕ) → 0x8480_0004 ≤ a → a < 0x8480_0040 → word mem a < 101 * 2 ^ 24
  unfolding load32_be
  length-small a h g =
      let first : load8 mem a < 101 = rw (same a (omega arith) g) (linked_small a h g) in
      omega (
        arith,
        first,
        ntohl-load32 mem a,
        load8-lt mem (a + 1),
        load8-lt mem (a + 2),
        load8-lt mem (a + 3),
      )

  moved_word :
      (a : ℕ)
      → 0x8480_0000 ≤ a
      → a + 4 ≤ 0x8480_0040
      → word mem a ≡ load32_be (as_linked moved_image 64 (bytes_at garbled)) a
  moved_word a h g =
      ntohl-load32 mem a
      ∙ word_same (as_linked moved_image 64 (bytes_at garbled)) mem 0x8480_0000 0x8480_0040 same a h
          g

  moved-FitBounded : FitBounded moved_build mem 0x8480_003f
  unfolding load8 load32_be as_linked
  moved-FitBounded adequate =
      let struct_at : word mem 0x8480_0008 ≡ 40 =
        moved_word 0x8480_0008 (omega arith) (omega arith) in
      let size_at : word mem 0x8480_0004 ≡ 64 =
        moved_word 0x8480_0004 (omega arith) (omega arith) in
      rw (struct_at, size_at) bounds
    where
      bounds : IsBounded mem 0x8480_0028 0x8480_0040 0x8480_003f 5000
      bounds = record {
        start = omega arith;
        nul = same 0x8480_003f (omega arith) (omega arith);
        past = omega arith;
        room = omega arith;
        some_fuel = omega arith;
        enough = omega arith;
        lengths =
            λ a above inside tag. omega (arith, length-small (a + 4) (omega arith) (omega arith));
      }

start_up-Concludes_example :
    Concludes ipq806x 4200
      (machine (bytes_at garbled))
      (start_up moved_build moved_image 4200 (machine (bytes_at garbled)))
start_up-Concludes_example =
    start_up-Concludes moved_build moved_image 64 8 4200 0x8480_003f (machine (bytes_at garbled))
      (inl refl) (record { header = omega arith; below = omega arith }) decoder-Answers
      (omega arith) moved-IsPlaced moved-FitBounded
