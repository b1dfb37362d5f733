-- ===== src/Loader/Fit/Accepts.antt =====
-- The whole of `handle_fit_header` on a tree that has all the properties it needs.
use qcom_ipq_aux_loader.Base.{
  ℕ, ◌≤◌, ◌<◌, List, ◌∷◌, none, some, codes, refl, ◌≡◌, true, false, arith, leb, Bool-cases, inl,
  inr, ◌==◌, if◌then◌else◌,
}
use qcom_ipq_aux_loader.Base.Int.{ℤ, minus}
use qcom_ipq_aux_loader.Machine.Run.{Machine, M, Run}
use qcom_ipq_aux_loader.Machine.Memory.{load32_be}
use qcom_ipq_aux_loader.Board.Swap.{ntohl-load32}
use qcom_ipq_aux_loader.Fdt.{Reply}
use qcom_ipq_aux_loader.Fdt.Layout.{Tag, find}
use qcom_ipq_aux_loader.Fdt.Find.{IsBlob, get_prop-find}
use qcom_ipq_aux_loader.Fdt.Header.{IsAdequate, check_header_iff}
use qcom_ipq_aux_loader.Lzma.Returns.{Answers}
use qcom_ipq_aux_loader.Loader.Given.{Build}
use qcom_ipq_aux_loader.Loader.Fit.Missing.{needed, first_missing, has_no_nul, text}
use qcom_ipq_aux_loader.Loader.Fit.Loads.{Loads, Fits, fit_load-Loads}
use qcom_ipq_aux_loader.Loader.Fit.{
  kernel_node_name, dtb_node_name, need_prop, fit_mismatch, fit_load, fit_props, handle_fit_header,
}

-- A property that is there is handed on.
need_prop-there :
    (P : Run ℤ → Type 0) (m : Machine) (image fuel : ℕ) (gs : List Tag) (node prop : List ℕ)
    (code : ℕ) (props : List (List ℕ × (List ℕ × ℕ))) (go_on : Reply → M ℤ)
    → (b : IsBlob m.memory image gs) → has_no_nul node ≡ true
    → has_no_nul prop ≡ true
    → b.t ≤ fuel
    → first_missing b.p gs ((node, (prop, code)) ∷ props) ≡ none
    → (first_missing b.p gs props ≡ none → P (go_on (find b.p node prop false gs 0) m))
    → P (need_prop fuel image node prop (minus code) go_on m)
unfolding need_prop first_missing
need_prop-there P m image fuel gs node prop code props go_on b nt pt enough h rest =
    let r = find b.p node prop false gs 0 in
    let found =
      get_prop-find m.memory image fuel gs node prop b (text node nt) (text prop pt) enough in
    elim (Bool-cases (r.ptr == 0)) [
      | inl e ↦ absurd (none-some (rw e at h))
      | inr e ↦ rw (found, e) (rest (rw e at h))
    ]
  where
    none-some : {x : ℤ} → ¬ (some x ≡ none)
    none-some e = cc

-- With the six properties the handler comes to the check of the kernel's size.
pub complete-then :
    (P : Run ℤ → Type 0) (b : Build) (m : Machine) (image kern_image_len : ℕ) (gs : List Tag)
    → IsAdequate m.memory image kern_image_len
    → (blob : IsBlob m.memory image gs) → blob.t ≤ b.fuel
    → first_missing blob.p gs needed ≡ none
    → P (
        (if leb kern_image_len (find blob.p kernel_node_name (codes "data") false gs 0).len
            then fit_mismatch
                (find blob.p kernel_node_name (codes "data") false gs 0).len
                kern_image_len
            else fit_load b
                (load32_be m.memory (find blob.p kernel_node_name (codes "load") false gs 0).ptr)
                (load32_be m.memory (find blob.p kernel_node_name (codes "entry") false gs 0).ptr)
                (find blob.p kernel_node_name (codes "data") false gs 0)
                (find blob.p dtb_node_name (codes "data") false gs 0))
          m)
    → P (handle_fit_header b image kern_image_len m)
unfolding handle_fit_header fit_props has_no_nul
complete-then P b m image len gs adequate blob enough h goes_on =
    rw ((check_header_iff m.memory image len).1 adequate) (
      need_prop-there P m image b.fuel gs _ _ 98 _ _ blob refl refl enough h λ h₁.
        need_prop-there P m image b.fuel gs _ _ 97 _ _ blob refl refl enough h₁ λ h₂.
          need_prop-there P m image b.fuel gs _ _ 96 _ _ blob refl refl enough h₂ λ h₃.
            need_prop-there P m image b.fuel gs _ _ 95 _ _ blob refl refl enough h₃ λ h₄.
              need_prop-there P m image b.fuel gs _ _ 94 _ _ blob refl refl enough h₄ λ h₅.
                need_prop-there P m image b.fuel gs _ _ 93 _ _ blob refl refl enough h₅
                  λ h₆. rw (ntohl-load32, ntohl-load32) goes_on)

-- The handler comes to the loading of the image, with what the six properties say.
pub accepted-then :
    (P : Run ℤ → Type 0) (b : Build) (m : Machine) (image kern_image_len : ℕ) (gs : List Tag)
    → IsAdequate m.memory image kern_image_len
    → (blob : IsBlob m.memory image gs) → blob.t ≤ b.fuel
    → first_missing blob.p gs needed ≡ none
    → (find blob.p kernel_node_name (codes "data") false gs 0).len < kern_image_len
    → P (
        fit_load b
          (load32_be m.memory (find blob.p kernel_node_name (codes "load") false gs 0).ptr)
          (load32_be m.memory (find blob.p kernel_node_name (codes "entry") false gs 0).ptr)
          (find blob.p kernel_node_name (codes "data") false gs 0)
          (find blob.p dtb_node_name (codes "data") false gs 0)
          m)
    → P (handle_fit_header b image kern_image_len m)
accepted-then P b m image len gs adequate blob enough h short loads =
    let src = find blob.p kernel_node_name (codes "data") false gs 0 in
    let fine : leb len src.len ≡ false = ground arith in
    complete-then P b m image len gs adequate blob enough h (rw fine loads)

-- On an adequate, well-formed blob that has the six properties, with kernel data shorter than the
-- image and room for the tree's blob, and whatever words the LZMA decoder answers, an error
-- included, the handler returns 0 with the entry point set to the first word of `entry`, the
-- second parameter kept, the third parameter set to the workspace, the bytes that then stand in the
-- place of the tree's blob copied there, and both caches off.
pub fit_accepted :
    (b : Build) (m : Machine) (image kern_image_len : ℕ) (gs : List Tag)
    → IsAdequate m.memory image kern_image_len
    → (blob : IsBlob m.memory image gs) → blob.t ≤ b.fuel
    → Answers b.decoder
    → first_missing blob.p gs needed ≡ none
    → (find blob.p kernel_node_name (codes "data") false gs 0).len < kern_image_len
    → Fits b (find blob.p dtb_node_name (codes "data") false gs 0)
    → Loads b m
        (load32_be m.memory (find blob.p kernel_node_name (codes "entry") false gs 0).ptr)
        (find blob.p dtb_node_name (codes "data") false gs 0)
        (handle_fit_header b image kern_image_len m)
fit_accepted b m image len gs adequate blob enough answers h short fits =
    let src = find blob.p kernel_node_name (codes "data") false gs 0 in
    let dtb = find blob.p dtb_node_name (codes "data") false gs 0 in
    let ep = load32_be m.memory (find blob.p kernel_node_name (codes "entry") false gs 0).ptr in
    accepted-then (Loads b m ep dtb) b m image len gs adequate blob enough h short
      (fit_load-Loads b _ ep src dtb m answers fits)
