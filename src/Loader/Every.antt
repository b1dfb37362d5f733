-- ===== src/Loader/Every.antt =====
-- How `loader_main` of src/loader.c ends for an image of any content.
use qcom_ipq_aux_loader.Base.{ℕ, ◌^◌, ◌<◌, refl, ◌==◌}
use qcom_ipq_aux_loader.Machine.Run.{Machine, Run}
use qcom_ipq_aux_loader.Drivers.Cpu.{Cpu}
use qcom_ipq_aux_loader.Lzma.Returns.{Answers}
use qcom_ipq_aux_loader.Loader.Given.{Build}
use qcom_ipq_aux_loader.Loader.Settled.{Settles, settled, main-then}
use qcom_ipq_aux_loader.Loader.Verdict.{Verdict}
use qcom_ipq_aux_loader.Loader.Outcome.{Follows, since-Follows, then-Follows}
use qcom_ipq_aux_loader.Loader.Meets.{IsLinked, FitBounded, load_image-Meets}
use qcom_ipq_aux_loader.Loader.{ipq_arch, loader_main}

-- A run that follows some verdict.
abbrev pub Concludes : Cpu → ℕ → Machine → Run (Unit {0}) → Type 0
Concludes cpu arch m r = (v : Verdict) × Follows (arch == ipq_arch) v cpu arch m r

-- In a build without RB3011_PREINITS, or with a timer whose counter runs and a loop bound above 33
-- times the readings that it takes to move, and whatever words the LZMA decoder answers: for an
-- image of any content, with room for a legacy header and with its end below the last word of the
-- address space, `loader_main` either calls the kernel, with architecture 4200 as second parameter
-- and both caches off, or ends in its endless loop with the watchdog armed for five seconds,
-- without a call of the kernel. For any other architecture number than 4200 it does the second.
-- Only a blob whose header is accepted has to meet a condition: a NUL in its last byte or behind
-- ends its strings, and no property tag has a length field that takes the search to the end of the
-- address space or around it.
pub loader_main-Concludes :
    (b : Build) (arch : ℕ) (m : Machine) (z : ℕ)
    → Settles b m
    → IsLinked b
    → Answers b.decoder
    → FitBounded b m.memory z
    → arch < 2 ^ 32
    → Concludes b.cpu arch m (loader_main b arch m)
loader_main-Concludes b arch m z settles linked answers bounded h =
    main-then (Concludes b.cpu arch m) b arch m settles λ events base quiet.
      let n = settled arch events base m in
      let (v, loaded) = load_image-Meets b n z linked answers bounded in
      (
        v,
        since-Follows b.cpu arch _ (arch == ipq_arch) v n m quiet
            (then-Follows b arch n v h refl loaded),
      )
