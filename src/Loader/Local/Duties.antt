-- ===== src/Loader/Local/Duties.antt =====
-- What is to be done with an image hangs on the image's bytes alone.
use qcom_ipq_aux_loader.Base.{
  ℕ, ◌+◌, ◌<◌, ◌≤◌, ◌≡◌, ◌≢◌, sym, ap, ◌∙◌, true, false, List, codes, arith,
}
use qcom_ipq_aux_loader.Machine.Memory.{Memory, load8}
use qcom_ipq_aux_loader.Machine.Run.{Machine, Run}
use qcom_ipq_aux_loader.Fdt.Layout.{Tag, find, find-inside}
use qcom_ipq_aux_loader.Fdt.Local.{Same, IsBlob-same}
use qcom_ipq_aux_loader.Loader.Given.{Build}
use qcom_ipq_aux_loader.Loader.Legacy.Handler.{ih_size}
use qcom_ipq_aux_loader.Loader.Fit.{kernel_node_name, dtb_node_name}
use qcom_ipq_aux_loader.Loader.Fit.Missing.{needed, first_missing-present}
use qcom_ipq_aux_loader.Loader.Fit.Unpacks.{HasRoom, Unpacks}
use qcom_ipq_aux_loader.Loader.Starts.{IsLegacy}
use qcom_ipq_aux_loader.Loader.FitBoot.{IsFit}
use qcom_ipq_aux_loader.Loader.FitStart.{fit_kernel, fit_tree, fit_address}
use qcom_ipq_aux_loader.Loader.Verdict.{refuse}
use qcom_ipq_aux_loader.Loader.Duty.{Duty, boot_legacy, boot_fit, turn_down, Fulfils}
use qcom_ipq_aux_loader.Loader.Local.{
  Between, word_at, IsLegacy-same, IsTree-same, IsFit-same, value_same, Decides-same,
}

module _ (b : Build) (mem mem' : Memory) (lo hi : ℕ) (place : Between b lo hi)
    (same : Same mem mem' lo hi) where
  -- The duty in the other memory, which is as good as the first.
  abbrev pub Moves : Duty b mem → Type 0
  Moves d =
      (d' : Duty b mem') × ((arch : ℕ) (m : Machine) (r : Run (Unit {0}))
        → Fulfils b mem' true d' arch m r
        → Fulfils b mem true d arch m r)

  legacy_duty :
      (l : IsLegacy b mem)
      → (complete : b.kernel_data_start + 64 + ih_size mem b.kernel_data_start ≤ b.kernel_data_end)
      → Moves (boot_legacy l complete)
  legacy_duty l complete =
      let size = word_at b mem mem' lo hi place same 12 (omega arith) in
      let load = word_at b mem mem' lo hi place same 16 (omega arith) in
      let entry = word_at b mem mem' lo hi place same 20 (omega arith) in
      (
        boot_legacy (IsLegacy-same b mem mem' lo hi place same l) (rw size complete),
        λ arch m r (m', starts, at, number, bytes). (
          m',
          starts,
          at ∙ entry,
          number,
          λ j lt.
              ap (λ a. load8 m'.memory (a + j)) (sym load)
              ∙ bytes j (rw size lt)
              ∙ same (b.kernel_data_start + 64 + j) (omega (arith, place.from))
                  (omega (arith, place.upto)),
        ),
      )

  -- A property of the image stands between the two addresses.
  above :
      (gs : List Tag) (fit : IsFit b mem gs) (node prop : List ℕ)
      → (find fit.blob.p node prop false gs 0).ptr ≢ 0
      → lo ≤ (find fit.blob.p node prop false gs 0).ptr
  above gs fit node prop there =
      let (high, low) =
        find-inside mem fit.blob.p fit.blob.n fit.blob.t node prop false gs 0 fit.blob.tags there in
      omega (arith, high, place.from, fit.blob.struct_at)

  fit_duty :
      (gs : List Tag) (plain : ℕ → ℕ) (size probs : ℕ) (fit : IsFit b mem gs)
      → (room : HasRoom b
          (fit_address b mem gs fit)
          (fit_kernel b mem gs fit)
          (fit_tree b mem gs fit)
          size
          probs)
      → (unpacks : Unpacks b mem
          (fit_address b mem gs fit)
          (fit_kernel b mem gs fit)
          plain
          size
          probs)
      → (kernel_in : (fit_kernel b mem gs fit).ptr + (fit_kernel b mem gs fit).len
          ≤ b.kernel_data_end)
      → (tree_in : (fit_tree b mem gs fit).ptr + (fit_tree b mem gs fit).len ≤ b.kernel_data_end)
      → Moves (boot_fit gs plain size probs fit room unpacks kernel_in tree_in)
  unfolding IsFit-same IsTree-same IsBlob-same
  fit_duty gs plain size probs fit room unpacks kernel_in tree_in =
      let present = first_missing-present fit.blob.p gs needed fit.complete in
      let address =
        value_same b mem mem' lo hi place same gs fit kernel_node_name (codes "load") present.1.0 in
      let entry =
        value_same b mem mem' lo hi place same gs fit kernel_node_name (codes "entry")
          present.1.1.0 in
      let kernel_above = above gs fit kernel_node_name (codes "data") present.1.1.1.0 in
      let tree_above = above gs fit dtb_node_name (codes "data") present.1.1.1.1.1.0 in
      let kernel = fit_kernel b mem gs fit in
      let tree = fit_tree b mem gs fit in
      let packed : (j : ℕ)
          → j < kernel.len
          → load8 mem' (kernel.ptr + j) ≡ load8 mem (kernel.ptr + j) =
        λ j lt.
          same (kernel.ptr + j) (omega (arith, kernel_above))
            (omega (arith, kernel_in, place.upto)) in
      let there : (j : ℕ) → j < tree.len → load8 mem' (tree.ptr + j) ≡ load8 mem (tree.ptr + j) =
        λ j lt.
          same (tree.ptr + j) (omega (arith, tree_above)) (omega (arith, tree_in, place.upto)) in
      (
        boot_fit gs plain size probs (IsFit-same b mem mem' lo hi place same gs fit)
            (rw address room) (rw address (λ other h. unpacks other λ j lt. h j lt ∙ packed j lt))
            kernel_in tree_in,
        λ arch m r (m', starts, at, number, params, bytes, blob). (
          m',
          starts,
          at ∙ entry,
          number,
          params,
          λ j lt. ap (λ a. load8 m'.memory (a + j)) (sym address) ∙ bytes j lt,
          λ j lt. blob j lt ∙ there j lt,
        ),
      )

  pub Duty-same : (d : Duty b mem) → Moves d
  Duty-same (boot_legacy l complete) = legacy_duty l complete
  Duty-same (boot_fit gs plain size probs fit room unpacks kernel_in tree_in) =
      fit_duty gs plain size probs fit room unpacks kernel_in tree_in
  Duty-same (turn_down code d) =
      (turn_down code (Decides-same b mem mem' lo hi place same (refuse code) d), λ arch m r h. h)
