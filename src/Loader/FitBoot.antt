-- ===== src/Loader/FitBoot.antt =====
-- What `load_image` of src/loader.c does with a complete FIT image.
use qcom_ipq_aux_loader.Base.{ℕ, ◌^◌, ◌<◌, ◌≤◌, List, none, codes, ◌≡◌, false, arith, sub32}
use qcom_ipq_aux_loader.Machine.Memory.{Memory, load32_be}
use qcom_ipq_aux_loader.Machine.Memory.Laws.{load32-lt}
use qcom_ipq_aux_loader.Board.Swap.{ntohl-load32, ntohl-lt}
use qcom_ipq_aux_loader.Machine.Run.{Machine}
use qcom_ipq_aux_loader.Fdt.Layout.{Tag, find}
use qcom_ipq_aux_loader.Fdt.Find.{IsBlob}
use qcom_ipq_aux_loader.Fdt.Header.{IsAdequate}
use qcom_ipq_aux_loader.Lzma.Returns.{Answers}
use qcom_ipq_aux_loader.Loader.Given.{Build}
use qcom_ipq_aux_loader.Loader.Fit.{kernel_node_name, dtb_node_name}
use qcom_ipq_aux_loader.Loader.Fit.Missing.{needed, first_missing}
use qcom_ipq_aux_loader.Loader.Fit.Loads.{Loads, Fits}
use qcom_ipq_aux_loader.Loader.Fit.Accepts.{fit_accepted}
use qcom_ipq_aux_loader.Loader.{handle_magic, load_image}

-- The image that stands behind the loader is a complete tree, with room for the device tree's blob.
pub record IsFit (b : Build) (mem : Memory) (gs : List Tag) : Type 0 where
  pub adequate : IsAdequate mem b.kernel_data_start (sub32 b.kernel_data_end b.kernel_data_start)
  pub blob : IsBlob mem b.kernel_data_start gs
  pub enough : blob.t ≤ b.fuel
  pub complete : first_missing blob.p gs needed ≡ none
  pub short :
      (find blob.p kernel_node_name (codes "data") false gs 0).len
      < sub32 b.kernel_data_end b.kernel_data_start
  pub fits : Fits b (find blob.p dtb_node_name (codes "data") false gs 0)

pub load_fit :
    (b : Build) (m : Machine) (gs : List Tag)
    → (fit : IsFit b m.memory gs) → Answers b.decoder
    → Loads b m
        (load32_be m.memory (find fit.blob.p kernel_node_name (codes "entry") false gs 0).ptr)
        (find fit.blob.p dtb_node_name (codes "data") false gs 0)
        (load_image b m)
unfolding load_image handle_magic
load_fit b m gs fit answers =
    let h =
      fit_accepted b m b.kernel_data_start (sub32 b.kernel_data_end b.kernel_data_start) gs
        fit.adequate fit.blob fit.enough answers fit.complete fit.short fit.fits in
    rw (ntohl-load32, fit.adequate.magic) h

pub word-lt : (mem : Memory) (p : ℕ) → load32_be mem p < 2 ^ 32
word-lt mem p = omega (arith, ntohl-load32 mem p, ntohl-lt _ (load32-lt mem p))
