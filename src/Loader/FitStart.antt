-- ===== src/Loader/FitStart.antt =====
-- From `loader_main` of src/loader.c to the unpacked kernel of a FIT image.
use qcom_ipq_aux_loader.Base.{ℕ, ◌+◌, ◌^◌, ◌<◌, List, codes, ◌≡◌, false, sub32}
use qcom_ipq_aux_loader.Machine.Memory.{Memory, load8, load32_be}
use qcom_ipq_aux_loader.Board.Swap.{ntohl-load32}
use qcom_ipq_aux_loader.Machine.Run.{Machine, Run}
use qcom_ipq_aux_loader.Fdt.{Reply}
use qcom_ipq_aux_loader.Fdt.Layout.{Tag, find}
use qcom_ipq_aux_loader.Loader.Given.{Build}
use qcom_ipq_aux_loader.Loader.Fit.{kernel_node_name, dtb_node_name}
use qcom_ipq_aux_loader.Loader.Fit.Accepts.{accepted-then}
use qcom_ipq_aux_loader.Loader.Fit.Unpacks.{HasRoom, Unpacks, Unpacked, fit_load-Unpacked}
use qcom_ipq_aux_loader.Loader.FitBoot.{IsFit, word-lt}
use qcom_ipq_aux_loader.Loader.Starts.{Starts, loaded-Starts}
use qcom_ipq_aux_loader.Loader.Settled.{Settles, settled, main-then}
use qcom_ipq_aux_loader.Loader.{handle_magic, load_image, loader_main}

-- What the image's properties say.
module _ (b : Build) (mem : Memory) (gs : List Tag) (fit : IsFit b mem gs) where
  abbrev pub fit_kernel : Reply
  fit_kernel = find fit.blob.p kernel_node_name (codes "data") false gs 0

  abbrev pub fit_tree : Reply
  fit_tree = find fit.blob.p dtb_node_name (codes "data") false gs 0

  abbrev pub fit_address : ℕ
  fit_address = load32_be mem (find fit.blob.p kernel_node_name (codes "load") false gs 0).ptr

  abbrev pub fit_entry : ℕ
  fit_entry = load32_be mem (find fit.blob.p kernel_node_name (codes "entry") false gs 0).ptr

load-Unpacked :
    (b : Build) (m : Machine) (gs : List Tag) (plain : ℕ → ℕ) (size probs : ℕ)
    → (fit : IsFit b m.memory gs)
    → HasRoom b
        (fit_address b m.memory gs fit)
        (fit_kernel b m.memory gs fit)
        (fit_tree b m.memory gs fit)
        size
        probs
    → Unpacks b m.memory
        (fit_address b m.memory gs fit)
        (fit_kernel b m.memory gs fit)
        plain
        size
        probs
    → Unpacked b m
        (fit_address b m.memory gs fit)
        (fit_entry b m.memory gs fit)
        (fit_tree b m.memory gs fit)
        plain
        size
        (load_image b m)
unfolding load_image handle_magic
load-Unpacked b m gs plain size probs fit room unpacks =
    let dst = fit_address b m.memory gs fit in
    let ep = fit_entry b m.memory gs fit in
    let dtb = fit_tree b m.memory gs fit in
    let h =
      accepted-then (Unpacked b m dst ep dtb plain size) b m b.kernel_data_start
        (sub32 b.kernel_data_end b.kernel_data_start) gs fit.adequate fit.blob fit.enough
        fit.complete fit.short
        (fit_load-Unpacked b m dst ep (fit_kernel b m.memory gs fit) dtb plain size probs room
          unpacks) in
    rw (ntohl-load32, fit.adequate.magic) h

-- In a build without RB3011_PREINITS, or with a timer whose counter runs and a loop bound above 33
-- times the readings that it takes to move: called with architecture 4200 on a machine whose memory
-- holds a complete FIT image with its kernel's load address below the packed kernel, with ranges
-- that do not meet, and with a decoder that unpacks the kernel's stream: `loader_main` calls the
-- kernel at the first word of `entry`, with 4200 as second parameter and the workspace as third.
-- The unpacked kernel then stands at its load address, the image's device tree in the workspace,
-- and both caches are off.
pub fit_unpacked-Starts :
    (b : Build) (m : Machine) (gs : List Tag) (plain : ℕ → ℕ) (size probs : ℕ)
    → Settles b m
    → (fit : IsFit b m.memory gs)
    → HasRoom b
        (fit_address b m.memory gs fit)
        (fit_kernel b m.memory gs fit)
        (fit_tree b m.memory gs fit)
        size
        probs
    → Unpacks b m.memory
        (fit_address b m.memory gs fit)
        (fit_kernel b m.memory gs fit)
        plain
        size
        probs
    → (m' : Machine) × Starts b.cpu m' (loader_main b 4200 m)
      × (m'.kernel_entry ≡ fit_entry b m.memory gs fit)
      × (m'.kernel_p1 ≡ 4200)
      × (m'.kernel_p2 ≡ b.workspace)
      × ((j : ℕ) → j < size → load8 m'.memory (fit_address b m.memory gs fit + j) ≡ plain j)
      × ((j : ℕ)
          → j < (fit_tree b m.memory gs fit).len
          → load8 m'.memory (b.workspace + j)
            ≡ load8 m.memory ((fit_tree b m.memory gs fit).ptr + j))
fit_unpacked-Starts b m gs plain size probs settles fit room unpacks =
    main-then Boots b 4200 m settles λ events base quiet.
      let n = settled 4200 events base m in
      let l = load-Unpacked b n gs plain size probs fit room unpacks in
      let below : l.end.kernel_entry < 2 ^ 32 =
        rw l.entry
          (word-lt m.memory (find fit.blob.p kernel_node_name (codes "entry") false gs 0).ptr) in
      (l.end, loaded-Starts b n l.end l.ends below, l.entry, l.arch, l.params, l.kernel, l.blob)
  where
    Boots : Run (Unit {0}) → Type 0
    Boots r =
        (m' : Machine) × Starts b.cpu m' r
        × (m'.kernel_entry ≡ fit_entry b m.memory gs fit)
        × (m'.kernel_p1 ≡ 4200)
        × (m'.kernel_p2 ≡ b.workspace)
        × ((j : ℕ) → j < size → load8 m'.memory (fit_address b m.memory gs fit + j) ≡ plain j)
        × ((j : ℕ)
            → j < (fit_tree b m.memory gs fit).len
            → load8 m'.memory (b.workspace + j)
              ≡ load8 m.memory ((fit_tree b m.memory gs fit).ptr + j))
