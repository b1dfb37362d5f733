-- ===== src/Loader/Duty.antt =====
-- What src/loader.c is there for: the kernel of the image behind it is put where the image wants it
-- and called, or the board is rebooted.
use qcom_ipq_aux_loader.Base.{
  ℕ, ◌+◌, ◌^◌, ◌≤◌, ◌<◌, ◌≡◌, Bool, true, false, List, arith, Bool-cases, inl, inr, ◌==◌, ==_iff,
}
use qcom_ipq_aux_loader.Base.Int.{ℤ}
use qcom_ipq_aux_loader.Machine.Memory.{Memory, load8}
use qcom_ipq_aux_loader.Machine.Run.{Machine, Run}
use qcom_ipq_aux_loader.Machine.Jumps.{jumps}
use qcom_ipq_aux_loader.Fdt.Layout.{Tag}
use qcom_ipq_aux_loader.Lzma.Returns.{Answers}
use qcom_ipq_aux_loader.Loader.Given.{Build}
use qcom_ipq_aux_loader.Loader.Legacy.Handler.{ih_size, ih_load, ih_ep}
use qcom_ipq_aux_loader.Loader.Fit.Unpacks.{HasRoom, Unpacks}
use qcom_ipq_aux_loader.Loader.FitBoot.{IsFit}
use qcom_ipq_aux_loader.Loader.FitStart.{
  fit_kernel, fit_tree, fit_address, fit_entry, fit_unpacked-Starts,
}
use qcom_ipq_aux_loader.Loader.Ends.{Reboots}
use qcom_ipq_aux_loader.Loader.Settled.{Settles}
use qcom_ipq_aux_loader.Loader.Starts.{Starts, IsLegacy, legacy_boot}
use qcom_ipq_aux_loader.Loader.Verdict.{refuse, Decides}
use qcom_ipq_aux_loader.Loader.Outcome.{since, loader_main-Follows, wrong_arch-Reboots}
use qcom_ipq_aux_loader.Loader.{ipq_arch, loader_main}

-- An image that can be started, with the text that its kernel unpacks to, or one to turn down.
pub data Duty (b : Build) (mem : Memory) : Type 0 where
  boot_legacy :
      IsLegacy b mem
      → b.kernel_data_start + 64 + ih_size mem b.kernel_data_start ≤ b.kernel_data_end
      → Duty b mem
  boot_fit :
      (gs : List Tag) (plain : ℕ → ℕ) (size probs : ℕ) (fit : IsFit b mem gs)
      → HasRoom b
          (fit_address b mem gs fit)
          (fit_kernel b mem gs fit)
          (fit_tree b mem gs fit)
          size
          probs
      → Unpacks b mem (fit_address b mem gs fit) (fit_kernel b mem gs fit) plain size probs
      → (fit_kernel b mem gs fit).ptr + (fit_kernel b mem gs fit).len ≤ b.kernel_data_end
      → (fit_tree b mem gs fit).ptr + (fit_tree b mem gs fit).len ≤ b.kernel_data_end
      → Duty b mem
  turn_down : (code : ℤ) → Decides b mem (refuse code) → Duty b mem

-- The kernel is called with its bytes, and those of its device tree, in their places.
abbrev pub Fulfils :
    (b : Build) (mem : Memory) → Bool → Duty b mem → ℕ → Machine → Run (Unit {0}) → Type 0
Fulfils b mem true (boot_legacy l complete) arch m r =
    (m' : Machine) × Starts b.cpu m' r
    × (m'.kernel_entry ≡ ih_ep mem b.kernel_data_start)
    × (m'.kernel_p1 ≡ arch)
    × ((j : ℕ)
        → j < ih_size mem b.kernel_data_start
        → load8 m'.memory (ih_load mem b.kernel_data_start + j)
          ≡ load8 mem (b.kernel_data_start + 64 + j))
Fulfils b mem true (boot_fit gs plain size probs fit room unpacks kernel_in tree_in) arch m r =
    (m' : Machine) × Starts b.cpu m' r
    × (m'.kernel_entry ≡ fit_entry b mem gs fit)
    × (m'.kernel_p1 ≡ arch)
    × (m'.kernel_p2 ≡ b.workspace)
    × ((j : ℕ) → j < size → load8 m'.memory (fit_address b mem gs fit + j) ≡ plain j)
    × ((j : ℕ)
        → j < (fit_tree b mem gs fit).len
        → load8 m'.memory (b.workspace + j) ≡ load8 mem ((fit_tree b mem gs fit).ptr + j))
Fulfils b mem true (turn_down code d) arch m r = Reboots b.cpu m r
Fulfils b mem false (boot_legacy l complete) arch m r = Reboots b.cpu m r
Fulfils b mem false (boot_fit gs plain size probs fit room unpacks kernel_in tree_in) arch m r =
    Reboots b.cpu m r
Fulfils b mem false (turn_down code d) arch m r = Reboots b.cpu m r

pub right_arch-Fulfils :
    (b : Build) (m : Machine)
    → Settles b m
    → Answers b.decoder
    → (d : Duty b m.memory) → Fulfils b m.memory true d 4200 m (loader_main b 4200 m)
right_arch-Fulfils b m settles answers (boot_legacy l complete) =
    let (m', starts, at, number, copied) = legacy_boot b m settles l in
    (m', starts, at, number, copied.inside)
right_arch-Fulfils b m settles answers
      (boot_fit gs plain size probs fit room unpacks kernel_in tree_in) =
    fit_unpacked-Starts b m gs plain size probs settles fit room unpacks
right_arch-Fulfils b m settles answers (turn_down code d) =
    loader_main-Follows b 4200 m (refuse code) settles answers (omega arith) d

pub Reboots-Fulfils :
    (b : Build) (mem : Memory) (d : Duty b mem) (arch : ℕ) (m : Machine) (r : Run (Unit {0}))
    → Reboots b.cpu m r
    → Fulfils b mem false d arch m r
Reboots-Fulfils b mem (boot_legacy l complete) arch m r h = h
Reboots-Fulfils b mem (boot_fit gs plain size probs fit room unpacks kernel_in tree_in) arch m r h =
    h
Reboots-Fulfils b mem (turn_down code d) arch m r h = h

-- What holds since a machine holds since an earlier one, if no kernel was called in between.
pub since-Fulfils :
    (b : Build) (mem : Memory) (d : Duty b mem) (arch : ℕ) (n m : Machine) (r : Run (Unit {0}))
    → jumps n.trace ≡ jumps m.trace
    → Fulfils b mem true d arch n r
    → Fulfils b mem true d arch m r
since-Fulfils b mem (boot_legacy l complete) arch n m r quiet h = h
since-Fulfils b mem (boot_fit gs plain size probs fit room unpacks kernel_in tree_in) arch n m r
      quiet h =
    h
since-Fulfils b mem (turn_down code d) arch n m r quiet h = since n m quiet h

-- In a build without RB3011_PREINITS, or with a timer whose counter runs and a loop bound above 33
-- times the readings that it takes to move, with an LZMA decoder that answers words and, for a FIT
-- image to start, unpacks its kernel's stream: with architecture 4200 `loader_main` calls the
-- kernel of an image that can be started at the image's entry point, with 4200 as second parameter
-- and both caches off. The memory then holds, for a legacy image, its body at its load address, and
-- for a FIT image the unpacked kernel at its load address and the image's device tree in the
-- workspace, which is the third parameter. For an image to turn down, and with any other
-- architecture number, it ends in its endless loop with the watchdog armed for five seconds, and
-- does not call the kernel.
pub loader_main-Fulfils :
    (b : Build) (arch : ℕ) (m : Machine)
    → Settles b m
    → Answers b.decoder
    → arch < 2 ^ 32
    → (d : Duty b m.memory) → Fulfils b m.memory (arch == ipq_arch) d arch m (loader_main b arch m)
loader_main-Fulfils b arch m settles answers h d = elim (Bool-cases (arch == ipq_arch)) [
  | inl e ↦
      let right : arch ≡ ipq_arch = (==_iff arch ipq_arch).0 e in
      rw (e, right) (right_arch-Fulfils b m settles answers d)
  | inr e ↦ rw e (
      Reboots-Fulfils b m.memory d arch m (loader_main b arch m)
        (wrong_arch-Reboots b arch m settles h (ground arith)))
]
