-- ===== src/Loader/Local.antt =====
-- The verdict on an image hangs on the image's bytes alone.
pub mod Duties
use qcom_ipq_aux_loader.Base.{
  ℕ, ◌+◌, ◌^◌, ◌<◌, ◌≤◌, ◌≡◌, ◌≢◌, sym, subst, ◌∙◌, List, codes, false, arith, add32,
}
use qcom_ipq_aux_loader.Machine.Memory.{Memory, load32_be}
use qcom_ipq_aux_loader.Fdt.Layout.{Tag, find, find-inside}
use qcom_ipq_aux_loader.Fdt.Local.{Same, word_same, IsBlob-same, IsAdequate-same}
use qcom_ipq_aux_loader.Loader.Given.{Build}
use qcom_ipq_aux_loader.Loader.Fit.{kernel_node_name}
use qcom_ipq_aux_loader.Loader.Fit.Missing.{needed, first_missing-present}
use qcom_ipq_aux_loader.Loader.Starts.{IsLegacy}
use qcom_ipq_aux_loader.Loader.FitBoot.{IsFit}
use qcom_ipq_aux_loader.Loader.Verdict.{
  Verdict, start, Decides, unknown, legacy_too_long, legacy_fits, fit_corrupt, fit_incomplete,
  fit_too_long, fit_complete, IsTree,
}

-- The image stands between two addresses, with room for a header's first words.
pub record Between (b : Build) (lo hi : ℕ) : Type 0 where
  pub from : lo ≤ b.kernel_data_start
  pub header : b.kernel_data_start + 28 ≤ hi
  pub order : b.kernel_data_start ≤ b.kernel_data_end
  pub upto : b.kernel_data_end ≤ hi
  pub small : hi < 2 ^ 32

module _ (b : Build) (mem mem' : Memory) (lo hi : ℕ) (place : Between b lo hi)
    (same : Same mem mem' lo hi) where
  pub word_at :
      (k : ℕ)
      → k ≤ 24
      → load32_be mem' (add32 b.kernel_data_start k) ≡ load32_be mem (add32 b.kernel_data_start k)
  word_at k h =
      let at : add32 b.kernel_data_start k ≡ b.kernel_data_start + k =
        omega (arith, place.header, place.small) in
      rw at (
        word_same mem mem' lo hi same (b.kernel_data_start + k) (omega (arith, place.from))
          (omega (arith, place.header)))

  magic_at : load32_be mem' b.kernel_data_start ≡ load32_be mem b.kernel_data_start
  magic_at =
      word_same mem mem' lo hi same b.kernel_data_start place.from (omega (arith, place.header))

  pub IsLegacy-same : IsLegacy b mem → IsLegacy b mem'
  IsLegacy-same l = record {
    magic = magic_at ∙ l.magic;
    fits = rw (word_at 12 (omega arith)) (l.fits);
    source = rw (word_at 12 (omega arith)) (l.source);
    target = rw (word_at 16 (omega arith), word_at 12 (omega arith)) (l.target);
    apart = rw (word_at 16 (omega arith), word_at 12 (omega arith)) (l.apart);
  }

  pub tree_inside : (gs : List Tag) (tree : IsTree b mem gs) → tree.blob.t ≤ hi
  tree_inside gs tree =
      let at : add32 b.kernel_data_start 4 ≡ b.kernel_data_start + 4 =
        omega (arith, place.header, place.small) in
      let fits = rw at at tree.adequate.fits in
      omega (arith, tree.blob.ends_at, fits, place.order, place.upto, place.small)

  pub IsTree-same : (gs : List Tag) → IsTree b mem gs → IsTree b mem' gs
  unfolding IsBlob-same
  IsTree-same gs tree = record {
    adequate =
        IsAdequate-same mem mem' lo hi same b.kernel_data_start _ place.from place.header
          place.small tree.adequate;
    blob =
        IsBlob-same mem mem' lo hi same b.kernel_data_start gs place.from tree.blob
          (tree_inside gs tree);
    enough = tree.enough;
  }

  pub IsFit-same : (gs : List Tag) → IsFit b mem gs → IsFit b mem' gs
  unfolding IsTree-same IsBlob-same
  IsFit-same gs fit =
      let tree : IsTree b mem gs = record {
        adequate = fit.adequate;
        blob = fit.blob;
        enough = fit.enough;
      } in
      record {
        adequate = (IsTree-same gs tree).adequate;
        blob = (IsTree-same gs tree).blob;
        enough = fit.enough;
        complete = fit.complete;
        short = fit.short;
        fits = fit.fits;
      }

  -- The first word of a property.
  pub value_same :
      (gs : List Tag) (fit : IsFit b mem gs) (node prop : List ℕ)
      → (find fit.blob.p node prop false gs 0).ptr ≢ 0
      → load32_be mem' (find fit.blob.p node prop false gs 0).ptr
        ≡ load32_be mem (find fit.blob.p node prop false gs 0).ptr
  value_same gs fit node prop there =
      let tree : IsTree b mem gs = record {
        adequate = fit.adequate;
        blob = fit.blob;
        enough = fit.enough;
      } in
      let inside = tree_inside gs tree in
      let (above, below) =
        find-inside mem fit.blob.p fit.blob.n fit.blob.t node prop false gs 0 fit.blob.tags there in
      word_same mem mem' lo hi same _ (omega (arith, above, place.from, fit.blob.struct_at))
        (omega (arith, below, inside))

  -- A verdict stays in every memory that has the image's bytes.
  pub Decides-same : (v : Verdict) → Decides b mem v → Decides b mem' v
  unfolding IsFit-same IsTree-same IsBlob-same
  Decides-same v (unknown other_than_legacy other_than_fit) =
      unknown (rw magic_at other_than_legacy) (rw magic_at other_than_fit)
  Decides-same v (legacy_too_long magic large) =
      legacy_too_long (magic_at ∙ magic) (rw (word_at 12 (omega arith)) large)
  Decides-same v (legacy_fits l) =
      subst (λ e. Decides b mem' (start e)) (word_at 20 (omega arith))
        (legacy_fits (IsLegacy-same l))
  Decides-same v (fit_corrupt magic bad) = fit_corrupt (magic_at ∙ magic) λ ok. bad (
      IsAdequate-same mem' mem lo hi (λ a h g. sym (same a h g)) b.kernel_data_start _ place.from
        place.header place.small ok)
  Decides-same v (fit_incomplete gs tree a missing) =
      fit_incomplete gs (IsTree-same gs tree) a missing
  Decides-same v (fit_too_long gs tree complete large) =
      fit_too_long gs (IsTree-same gs tree) complete large
  Decides-same v (fit_complete gs fit) =
      subst (λ e. Decides b mem' (start e))
        (value_same gs fit kernel_node_name (codes "entry")
          (first_missing-present fit.blob.p gs needed fit.complete).1.1.0)
        (fit_complete gs (IsFit-same gs fit))
