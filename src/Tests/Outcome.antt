-- ===== src/Tests/Outcome.antt =====
-- Images that the loader decides on.
use qcom_ipq_aux_loader.Base.{◌+◌, ◌≤◌, refl, inl, true, arith}
use qcom_ipq_aux_loader.Base.Int.{minus}
use qcom_ipq_aux_loader.Machine.Memory.{load8, load32, load32_be}
use qcom_ipq_aux_loader.Drivers.Cpu.{ipq806x}
use qcom_ipq_aux_loader.Machine.Console.Says.{Says}
use qcom_ipq_aux_loader.Lzma.{lzma_gogogo}
use qcom_ipq_aux_loader.Lzma.Outcome.{lzma_gogogo_lem}
use qcom_ipq_aux_loader.Loader.Fit.Missing.{first_missing}
use qcom_ipq_aux_loader.Loader.Ends.{Reboots}
use qcom_ipq_aux_loader.Loader.Verdict.{refuse, Decides, fit_incomplete, Loaded, load_image-Loaded}
use qcom_ipq_aux_loader.Loader.Outcome.{wrong_arch-Reboots}
use qcom_ipq_aux_loader.Loader.{load_image, loader_main}
use qcom_ipq_aux_loader.Startup.{start_up}
use qcom_ipq_aux_loader.Startup.Linked.{as_linked}
use qcom_ipq_aux_loader.Startup.Fulfils.{start_up-Fulfils}
use qcom_ipq_aux_loader.Loader.Duty.{Duty, boot_legacy, Fulfils}
use qcom_ipq_aux_loader.Loader.Starts.{IsLegacy}
use qcom_ipq_aux_loader.Loader.Legacy.Handler.{ih_size}
use qcom_ipq_aux_loader.Tests.Machines.{legacy_build, legacy_image, legacy-IsPlaced, legacy-Settles}
use qcom_ipq_aux_loader.Tests.Data.{decoder, machine, board, bytes_at, blob, legacy}
use qcom_ipq_aux_loader.Tests.Fdt.{tags, blob-IsBlob, blob-IsAdequate}
use qcom_ipq_aux_loader.Tests.Fit.{decoder-Answers}

-- Its tree has no description of the kernel.
blob-Decides : Decides (board 100) (bytes_at blob) (refuse (minus 98))
unfolding first_missing blob-IsBlob
blob-Decides =
    fit_incomplete tags
      (record { adequate = blob-IsAdequate; blob = blob-IsBlob; enough = omega arith }) (minus 98)
      refl

load_image-Loaded_example :
    Loaded
      (refuse (minus 98))
      (machine (bytes_at blob))
      (load_image (board 100) (machine (bytes_at blob)))
load_image-Loaded_example =
    load_image-Loaded (board 100) (machine (bytes_at blob)) decoder-Answers blob-Decides

wrong_arch-Reboots_example :
    Reboots ipq806x
      (machine (bytes_at legacy))
      (loader_main (board 67) 4201 (machine (bytes_at legacy)))
wrong_arch-Reboots_example =
    wrong_arch-Reboots (board 67) 4201 (machine (bytes_at legacy)) (inl refl) (omega arith)
      (omega arith)

linked-IsLegacy : IsLegacy legacy_build (as_linked legacy_image 67 (bytes_at legacy))
unfolding load8 load32_be as_linked
linked-IsLegacy = record {
  magic = refl;
  fits = omega arith;
  source = omega arith;
  target = omega arith;
  apart = inl (omega arith);
}

linked_complete :
    0x8480_0000 + 64 + ih_size (as_linked legacy_image 67 (bytes_at legacy)) 0x8480_0000
    ≤ 0x8480_0043
unfolding load8 load32_be as_linked
linked_complete = omega arith

-- The image in the payload that stands elsewhere.
abbrev linked_duty : Duty legacy_build (as_linked legacy_image 67 (bytes_at legacy))
linked_duty = boot_legacy linked-IsLegacy linked_complete

start_up-Fulfils_example :
    Fulfils legacy_build
      (as_linked legacy_image 67 (bytes_at legacy))
      true
      linked_duty
      4200
      (machine (bytes_at legacy))
      (start_up legacy_build legacy_image 4200 (machine (bytes_at legacy)))
start_up-Fulfils_example =
    start_up-Fulfils legacy_build legacy_image 67 8 4200 (machine (bytes_at legacy)) legacy-Settles
      decoder-Answers (omega arith) legacy-IsPlaced
      (record {
        from = omega arith;
        header = omega arith;
        order = omega arith;
        upto = omega arith;
        small = omega arith;
      })
      linked_duty

-- The size of the output is the word at 4101.
lzma_gogogo_lem_example :
    Says
      (0x6400_00, minus 2)
      (machine (bytes_at blob))
      (lzma_gogogo decoder 65536 8192 4096 100 (machine (bytes_at blob)))
unfolding load8 load32
lzma_gogogo_lem_example =
    lzma_gogogo_lem decoder 65536 8192 4096 100 (machine (bytes_at blob)) decoder-Answers
      (omega arith) (omega arith) (omega arith)
