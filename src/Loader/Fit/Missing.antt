-- ===== src/Loader/Fit/Missing.antt =====
-- What `handle_fit_header` answers when a property is missing from the image's tree.
use qcom_ipq_aux_loader.Base.{
  ℕ, ◌≤◌, List, [], ◌∷◌, Option, none, some, codes, refl, ap, ◌≡◌, ◌≢◌, true, false, arith,
  Bool-cases, Bool, not, ◌&&◌, and-eq-true, inl, inr, ◌==◌, if◌then◌else◌, All,
}
use qcom_ipq_aux_loader.Base.Int.{ℤ, minus, is_nonzero}
use qcom_ipq_aux_loader.Machine.Run.{Machine, M, ok}
use qcom_ipq_aux_loader.Fdt.{Reply}
use qcom_ipq_aux_loader.Fdt.Text.{IsText}
use qcom_ipq_aux_loader.Fdt.Layout.{Tag, find}
use qcom_ipq_aux_loader.Fdt.Find.{IsBlob, get_prop-find}
use qcom_ipq_aux_loader.Fdt.Header.{IsAdequate, check_header_iff}
use qcom_ipq_aux_loader.Loader.Given.{Build}
use qcom_ipq_aux_loader.Loader.Fit.{
  kernel_node_name, dtb_node_name, need_prop, fit_props, handle_fit_header,
}

-- The properties in the order in which they are looked for, each with the answer if it is missing.
abbrev pub needed : List (List ℕ × (List ℕ × ℕ))
needed =
    (kernel_node_name, (codes "description", 98))
    ∷ (kernel_node_name, (codes "load", 97))
    ∷ (kernel_node_name, (codes "entry", 96))
    ∷ (kernel_node_name, (codes "data", 95))
    ∷ (kernel_node_name, (codes "compression", 94))
    ∷ (dtb_node_name, (codes "data", 93))
    ∷ []

-- The answer for the first property that is missing, if one is.
unfoldable pub first_missing : ℕ → List Tag → List (List ℕ × (List ℕ × ℕ)) → Option ℤ
first_missing p gs [] = none
first_missing p gs ((node, (prop, code)) ∷ props) =
    let others = first_missing p gs props in
    if (find p node prop false gs 0).ptr == 0 then some (minus code) else others

unfoldable pub has_no_nul : List ℕ → Bool
has_no_nul [] = true
has_no_nul (c ∷ s) = not (c == 0) && has_no_nul s

pub text : (s : List ℕ) → has_no_nul s ≡ true → IsText s
unfolding has_no_nul
text [] h = tt
text (c ∷ s) h = let (first, rest) = and-eq-true _ _ h in ((λ e. ground arith), text s rest)

-- An answer is one of the codes.
pub first_missing-nonzero :
    (p : ℕ) (gs : List Tag) (props : List (List ℕ × (List ℕ × ℕ))) (a : ℤ)
    → All (λ x. is_nonzero (minus x.1.1) ≡ true) props
    → first_missing p gs props ≡ some a
    → is_nonzero a ≡ true
unfolding first_missing
first_missing-nonzero p gs [] a codes h = cc
first_missing-nonzero p gs ((node, (prop, code)) ∷ props) a (one, others) h =
    elim (Bool-cases ((find p node prop false gs 0).ptr == 0)) [
      | inl e ↦ rw (← some-inj (rw e at h)) one
      | inr e ↦ first_missing-nonzero p gs props a others (rw e at h)
    ]
  where
    some-inj : {x y : ℤ} → some x ≡ some y → x ≡ y
    some-inj e = cc

-- Where none is missing, each is there.
pub first_missing-present :
    (p : ℕ) (gs : List Tag) (props : List (List ℕ × (List ℕ × ℕ)))
    → first_missing p gs props ≡ none
    → All (λ x. (find p x.0 x.1.0 false gs 0).ptr ≢ 0) props
unfolding first_missing
first_missing-present p gs [] h = tt
first_missing-present p gs ((node, (prop, code)) ∷ props) h =
    elim (Bool-cases ((find p node prop false gs 0).ptr == 0)) [
      | inl e ↦ absurd (none-some (rw e at h))
      | inr e ↦ (ground arith, first_missing-present p gs props (rw e at h))
    ]
  where
    none-some : {x : ℤ} → ¬ (some x ≡ none)
    none-some e = cc

-- A property that is looked for answers for itself, or leaves the answer to the others.
need_prop-first :
    (m : Machine) (image fuel : ℕ) (gs : List Tag) (node prop : List ℕ) (code : ℕ)
    (props : List (List ℕ × (List ℕ × ℕ))) (a : ℤ) (go_on : Reply → M ℤ)
    → (b : IsBlob m.memory image gs) → has_no_nul node ≡ true
    → has_no_nul prop ≡ true
    → b.t ≤ fuel
    → first_missing b.p gs ((node, (prop, code)) ∷ props) ≡ some a
    → (first_missing b.p gs props ≡ some a → (r : Reply) → go_on r m ≡ ok a m)
    → need_prop fuel image node prop (minus code) go_on m ≡ ok a m
unfolding need_prop first_missing
need_prop-first m image fuel gs node prop code props a go_on b nt pt enough h rest =
    let r = find b.p node prop false gs 0 in
    let found =
      get_prop-find m.memory image fuel gs node prop b (text node nt) (text prop pt) enough in
    elim (Bool-cases (r.ptr == 0)) [
      | inl e ↦ rw (found, e) (ap (λ c. ok c m) (some-inj (rw e at h)))
      | inr e ↦ rw (found, e) (rest (rw e at h) r)
    ]
  where
    some-inj : {x y : ℤ} → some x ≡ some y → x ≡ y
    some-inj e = cc

none_left : (p : ℕ) (gs : List Tag) (a : ℤ) → ¬ (first_missing p gs [] ≡ some a)
unfolding first_missing
none_left p gs a h = cc

-- On an adequate, well-formed blob whose tree lacks one of the six properties, the handler returns
-- the code of the first that is missing, in the order description, load, entry, data and
-- compression of `kernel@1`, then data of `fdt@1`, and the machine is as before.
pub fit_missing :
    (b : Build) (m : Machine) (image kern_image_len : ℕ) (gs : List Tag) (a : ℤ)
    → IsAdequate m.memory image kern_image_len
    → (blob : IsBlob m.memory image gs) → blob.t ≤ b.fuel
    → first_missing blob.p gs needed ≡ some a
    → handle_fit_header b image kern_image_len m ≡ ok a m
unfolding handle_fit_header fit_props has_no_nul
fit_missing b m image len gs a adequate blob enough h =
    rw ((check_header_iff m.memory image len).1 adequate) (
      need_prop-first m image b.fuel gs _ _ 98 _ a _ blob refl refl enough h λ h₁ name.
        need_prop-first m image b.fuel gs _ _ 97 _ a _ blob refl refl enough h₁ λ h₂ load.
          need_prop-first m image b.fuel gs _ _ 96 _ a _ blob refl refl enough h₂ λ h₃ entry.
            need_prop-first m image b.fuel gs _ _ 95 _ a _ blob refl refl enough h₃ λ h₄ src.
              need_prop-first m image b.fuel gs _ _ 94 _ a _ blob refl refl enough h₄ λ h₅ compr.
                need_prop-first m image b.fuel gs _ _ 93 _ a _ blob refl refl enough h₅
                  λ h₆ dtb. elim (none_left blob.p gs a h₆) [ ])
