-- ===== src/Loader/Settled.antt =====
-- The first part of `loader_main` of src/loader.c, up to the check of the machine's number, in
-- both builds.
use qcom_ipq_aux_loader.Base.{
  ◌∙◌, ℕ, ◌*◌, ◌<◌, ◌≡◌, ◌⊎◌, inl, inr, refl, List, [], codes, true, false, ◌==◌, if◌then◌else◌,
}
use qcom_ipq_aux_loader.Machine.Run.{Event, Machine, Run}
use qcom_ipq_aux_loader.Machine.Console.{say}
use qcom_ipq_aux_loader.Machine.Jumps.{jumps, jumps-puts}
use qcom_ipq_aux_loader.Machine.Console.Says.{print-Says}
use qcom_ipq_aux_loader.Drivers.Timer.Elapsed.{Runs}
use qcom_ipq_aux_loader.Printf.Format.Typed.{typed}
use qcom_ipq_aux_loader.Loader.Given.{Build}
use qcom_ipq_aux_loader.Loader.Preinits.{nss_gmac1_base}
use qcom_ipq_aux_loader.Loader.Preinits.Finishes.{preinits-Returns}
use qcom_ipq_aux_loader.Loader.Ends.{banner-Says}
use qcom_ipq_aux_loader.Loader.{ipq_arch, preinits, boot, arch_mismatch, loader_main}

-- A build without RB3011_PREINITS, or a timer whose counter runs and that is read often enough.
abbrev pub Settles : Build → Machine → Type 0
Settles b m =
    (b.rb3011 ≡ false) ⊎ ((b.rb3011 ≡ true) × (runs : Runs m.device) × (33 * runs.pace < b.fuel))

-- The machine behind that part.
abbrev pub settled : ℕ → List Event → ℕ → Machine → Machine
settled arch events base m = record m {
  trace = events;
  mdio_reg_base = base;
  arch = arch;
  kernel_p1 = arch;
}

pub main-then :
    (P : Run (Unit {0}) → Type 0) (b : Build) (arch : ℕ) (m : Machine)
    → Settles b m
    → ((events : List Event) (base : ℕ)
        → jumps events ≡ jumps m.trace
        → P (
            (if arch == ipq_arch then boot b else arch_mismatch b arch)
              (settled arch events base m)))
    → P (loader_main b arch m)
unfolding loader_main preinits typed
main-then P b arch m (inl plain) rest =
    let (s, e) = banner-Says m in
    let (t, f) = print-Says (codes "\n") [] refl tt (say s m) in
    rw e (
      simp plain
        (rw f (rest (say t (say s m)).trace m.mdio_reg_base (jumps-puts t _ ∙ jumps-puts s _))))
main-then P b arch m (inr (with_preinits, runs, enough)) rest =
    let (s, e) = banner-Says m in
    let (t, f) = print-Says (codes "\n") [] refl tt (say s m) in
    let (u, events, g, quiet) = preinits-Returns b.fuel (say t (say s m)) runs enough in
    let (v, h) =
      print-Says (codes "\n") [] refl tt
        (record m { trace = events; mdio_reg_base = nss_gmac1_base }) in
    rw e (
      simp with_preinits (
        rw (f, g, h)
          (rest (say v (record m { trace = events; mdio_reg_base = nss_gmac1_base })).trace
            nss_gmac1_base (jumps-puts v _ ∙ quiet ∙ jumps-puts t _ ∙ jumps-puts s _))))
