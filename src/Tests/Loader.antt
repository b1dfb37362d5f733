-- ===== src/Tests/Loader.antt =====
-- Images that the loader is given.
use qcom_ipq_aux_loader.Base.{◌≡◌, refl, some, inl, inr, arith}
use qcom_ipq_aux_loader.Base.Int.{minus}
use qcom_ipq_aux_loader.Machine.Memory.{Memory, load8, load32_be}
use qcom_ipq_aux_loader.Machine.Run.{Machine, ok}
use qcom_ipq_aux_loader.Drivers.Cpu.{ipq806x}
use qcom_ipq_aux_loader.Loader.Memcpy.{my_memcpy}
use qcom_ipq_aux_loader.Loader.Memcpy.Copies.{Copied, memcpy-Copied}
use qcom_ipq_aux_loader.Loader.Fit.{handle_fit_header}
use qcom_ipq_aux_loader.Loader.Fit.Missing.{first_missing, fit_missing}
use qcom_ipq_aux_loader.Loader.Starts.{Starts, IsLegacy, legacy_boot}
use qcom_ipq_aux_loader.Loader.{loader_main}
use qcom_ipq_aux_loader.Tests.Data.{machine, board, bytes_at, blob, legacy}
use qcom_ipq_aux_loader.Tests.Fdt.{tags, blob-IsBlob, blob-IsAdequate}

memcpy-Copied_example :
    (mem' : Memory) × (my_memcpy (bytes_at legacy) 8192 4160 3 ≡ some mem')
    × Copied (bytes_at legacy) 8192 4160 3 mem'
memcpy-Copied_example =
    memcpy-Copied (bytes_at legacy) 8192 4160 3 (omega arith) (omega arith) (inr (omega arith))

fit_missing_example :
    handle_fit_header (board 100) 4096 100 (machine (bytes_at blob))
    ≡ ok (minus 98) (machine (bytes_at blob))
unfolding first_missing blob-IsBlob
fit_missing_example =
    fit_missing (board 100) (machine (bytes_at blob)) 4096 100 tags (minus 98) blob-IsAdequate
      blob-IsBlob (omega arith) refl

pub legacy-IsLegacy : IsLegacy (board 67) (bytes_at legacy)
unfolding load8 load32_be
legacy-IsLegacy = record {
  magic = refl;
  fits = omega arith;
  source = omega arith;
  target = omega arith;
  apart = inr (omega arith);
}

legacy_boot_example :
    (m' : Machine) × Starts ipq806x m' (loader_main (board 67) 4200 (machine (bytes_at legacy)))
    × (m'.kernel_entry ≡ 8192)
    × (m'.kernel_p1 ≡ 4200)
    × Copied (bytes_at legacy) 8192 4160 3 m'.memory
unfolding load8 load32_be
legacy_boot_example = legacy_boot (board 67) (machine (bytes_at legacy)) (inl refl) legacy-IsLegacy
