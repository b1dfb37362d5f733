-- ===== src/Loader/Outcome.antt =====
-- What `loader_main` of src/loader.c does with every image that the specification decides.
use qcom_ipq_aux_loader.Base.{
  ℕ, ◌^◌, ◌<◌, ◌≡◌, ◌≢◌, ◌∙◌, refl, Bool, true, false, arith, Bool-cases, inl, inr, ◌==◌,
  if◌then◌else◌,
}
use qcom_ipq_aux_loader.Machine.Run.{Machine, Run}
use qcom_ipq_aux_loader.Machine.Console.{say}
use qcom_ipq_aux_loader.Machine.Jumps.{jumps, jumps-puts}
use qcom_ipq_aux_loader.Drivers.Cpu.{Cpu}
use qcom_ipq_aux_loader.Lzma.Returns.{Answers}
use qcom_ipq_aux_loader.Loader.Given.{Build}
use qcom_ipq_aux_loader.Loader.Ends.{Reboots, arch_mismatch-Reboots, refused-Reboots}
use qcom_ipq_aux_loader.Loader.Settled.{Settles, settled, main-then}
use qcom_ipq_aux_loader.Loader.Starts.{Starts, loaded-Starts}
use qcom_ipq_aux_loader.Loader.Verdict.{Verdict, start, refuse, Decides, Loaded, load_image-Loaded}
use qcom_ipq_aux_loader.Loader.{ipq_arch, load_image, boot, arch_mismatch, loader_main}

-- On a machine of the right number the verdict is followed, on others the board is rebooted.
abbrev pub Follows : Bool → Verdict → Cpu → ℕ → Machine → Run (Unit {0}) → Type 0
Follows true (start entry) cpu arch m r =
    (m' : Machine) × Starts cpu m' r × (m'.kernel_entry ≡ entry) × (m'.kernel_p1 ≡ arch)
Follows true (refuse code) cpu arch m r = Reboots cpu m r
Follows false v cpu arch m r = Reboots cpu m r

-- What holds back from the first part of `loader_main` holds of the whole.
pub since :
    {cpu : Cpu} {r : Run (Unit {0})} (n m : Machine)
    → jumps n.trace ≡ jumps m.trace
    → Reboots cpu n r
    → Reboots cpu m r
since n m quiet x = record {
  end = x.end;
  ends = x.ends;
  armed = x.armed;
  no_jump = x.no_jump ∙ quiet;
}

boot-Follows :
    (b : Build) (arch : ℕ) (m : Machine) (v : Verdict)
    → m.kernel_p1 ≡ arch
    → Loaded v m (load_image b m)
    → Follows true v b.cpu arch m (boot b m)
boot-Follows b arch m (start entry) number (m', e, at, kept, below) =
    (m', loaded-Starts b m m' e (rw at below), at, kept ∙ number)
boot-Follows b arch m (refuse code) number ((s, e), nonzero) =
    since (say s m) m (jumps-puts s m.trace) (refused-Reboots b code m (say s m) e nonzero)

arch_mismatch-Follows :
    (b : Build) (arch : ℕ) (m : Machine) (v : Verdict)
    → arch < 2 ^ 32
    → Follows false v b.cpu arch m (arch_mismatch b arch m)
arch_mismatch-Follows b arch m (start entry) h = arch_mismatch-Reboots b arch m h
arch_mismatch-Follows b arch m (refuse code) h = arch_mismatch-Reboots b arch m h

pub since-Follows :
    (cpu : Cpu) (arch : ℕ) (r : Run (Unit {0})) (right : Bool) (v : Verdict) (n m : Machine)
    → jumps n.trace ≡ jumps m.trace
    → Follows right v cpu arch n r
    → Follows right v cpu arch m r
since-Follows cpu arch r true (start entry) n m quiet x = x
since-Follows cpu arch r true (refuse code) n m quiet x = since n m quiet x
since-Follows cpu arch r false (start entry) n m quiet x = since n m quiet x
since-Follows cpu arch r false (refuse code) n m quiet x = since n m quiet x

-- In a build without RB3011_PREINITS, or with a timer whose counter runs and a loop bound above 33
-- times the readings that it takes to move: `loader_main` called with an architecture number other
-- than 4200 ends in its endless loop with the watchdog armed for five seconds, and does not call
-- the kernel, whatever the memory holds.
pub wrong_arch-Reboots :
    (b : Build) (arch : ℕ) (m : Machine)
    → Settles b m
    → arch < 2 ^ 32
    → arch ≢ ipq_arch
    → Reboots b.cpu m (loader_main b arch m)
wrong_arch-Reboots b arch m settles h other =
    let differs : (arch == ipq_arch) ≡ false = ground arith in
    main-then (Reboots b.cpu m) b arch m settles λ events base quiet.
      let n = settled arch events base m in
      rw differs (since n m quiet (arch_mismatch-Reboots b arch n h))

-- Behind the first part of `loader_main`, a verdict that `load_image` meets is followed.
pub then-Follows :
    (b : Build) (arch : ℕ) (m : Machine) (v : Verdict)
    → arch < 2 ^ 32
    → m.kernel_p1 ≡ arch
    → Loaded v m (load_image b m)
    → Follows
        (arch == ipq_arch)
        v
        b.cpu
        arch
        m
        ((if arch == ipq_arch then boot b else arch_mismatch b arch) m)
then-Follows b arch m v h number loaded = elim (Bool-cases (arch == ipq_arch)) [
  | inl e ↦ rw e (boot-Follows b arch m v number loaded)
  | inr e ↦ rw e (arch_mismatch-Follows b arch m v h)
]

-- In a build without RB3011_PREINITS, or with a timer whose counter runs and a loop bound above 33
-- times the readings that it takes to move, and whatever words the LZMA decoder answers:
-- `loader_main` follows the verdict on the image behind it. With architecture 4200 and a verdict to
-- start, it calls the kernel at the verdict's address, with 4200 as second parameter and both
-- caches off; with a verdict to refuse, or any other architecture number, it ends in its endless
-- loop with the watchdog armed for five seconds, and does not call the kernel.
pub loader_main-Follows :
    (b : Build) (arch : ℕ) (m : Machine) (v : Verdict)
    → Settles b m
    → Answers b.decoder
    → arch < 2 ^ 32
    → Decides b m.memory v
    → Follows (arch == ipq_arch) v b.cpu arch m (loader_main b arch m)
loader_main-Follows b arch m v settles answers h d =
    main-then (Follows (arch == ipq_arch) v b.cpu arch m) b arch m settles λ events base quiet.
      let n = settled arch events base m in
      since-Follows b.cpu arch _ (arch == ipq_arch) v n m quiet
        (then-Follows b arch n v h refl (load_image-Loaded b n answers d))
