-- ===== src/Loader/Fit/Refuses.antt =====
-- The answers of `handle_fit_header` of src/loader.c to images that it only reports.
use qcom_ipq_aux_loader.Base.{
  ℕ, zero, suc, ◌^◌, ◌≤◌, ◌<◌, ◌≡◌, List, [], ◌∷◌, none, codes, refl, true, false, arith, leb,
  Bool-cases, inl, inr,
}
use qcom_ipq_aux_loader.Base.Int.{ℤ, pos, negsuc, minus, int_word, is_nonzero}
use qcom_ipq_aux_loader.Machine.Memory.{Memory}
use qcom_ipq_aux_loader.Machine.Run.{Machine}
use qcom_ipq_aux_loader.Machine.Console.Says.{Says, print-then}
use qcom_ipq_aux_loader.Printf.Format.{word}
use qcom_ipq_aux_loader.Printf.Format.Typed.{typed}
use qcom_ipq_aux_loader.Fdt.{fdt_check_header}
use qcom_ipq_aux_loader.Fdt.Layout.{Tag, find, find-len}
use qcom_ipq_aux_loader.Fdt.Find.{IsBlob}
use qcom_ipq_aux_loader.Fdt.Header.{IsAdequate, check_header_iff}
use qcom_ipq_aux_loader.Loader.Given.{Build}
use qcom_ipq_aux_loader.Loader.Ends.{int_word-lt}
use qcom_ipq_aux_loader.Loader.Fit.Missing.{needed, first_missing}
use qcom_ipq_aux_loader.Loader.Fit.Accepts.{complete-then}
use qcom_ipq_aux_loader.Loader.Fit.{
  kernel_node_name, fit_corrupted, fit_mismatch, handle_fit_header,
}

pub corrupted-Says : (ret : ℤ) (m : Machine) → Says (minus 99) m (fit_corrupted ret m)
unfolding fit_corrupted typed
corrupted-Says ret m =
    print-then (codes "Error ! FDT header is corrupted! check_ret = %d\n")
      (word (int_word ret) ∷ []) _ _ m refl (int_word-lt ret, tt) λ s. ([], refl)

pub mismatch-Says :
    (size len : ℕ)
    → size < 2 ^ 32
    → len < 2 ^ 32
    → (m : Machine) → Says (minus 99) m (fit_mismatch size len m)
unfolding fit_mismatch typed
mismatch-Says size len a b m = print-then (codes "\n") [] _ _ m refl tt λ s.
    print-then (codes "Error ! Kernel sizes mismath detected !\n") [] _ _ _ refl tt λ t.
      print-then (codes "  details: %d >= %d !\n") (word size ∷ word len ∷ []) _ _ _ refl
        (a, (b, tt)) λ u. ([], refl)

pub accepted-IsAdequate :
    (mem : Memory) (image kern_image_len : ℕ)
    → is_nonzero (fdt_check_header mem image kern_image_len) ≡ false
    → IsAdequate mem image kern_image_len
accepted-IsAdequate mem image len e =
    (check_header_iff mem image len).0 (zero_of (fdt_check_header mem image len) e)
  where
    zero_of : (a : ℤ) → is_nonzero a ≡ false → a ≡ pos 0
    zero_of (pos zero) e = refl
    zero_of (pos (suc n)) e = cc
    zero_of (negsuc n) e = cc

-- A blob whose header does not meet the conditions of `fdt_check_header`.
pub corrupted-Refuses :
    (b : Build) (m : Machine) (image kern_image_len : ℕ)
    → ¬ IsAdequate m.memory image kern_image_len
    → Says (minus 99) m (handle_fit_header b image kern_image_len m)
unfolding handle_fit_header
corrupted-Refuses b m image len bad =
    let ret = fdt_check_header m.memory image len in
    elim (Bool-cases (is_nonzero ret)) [
      | inl e ↦ rw e (corrupted-Says ret m)
      | inr e ↦ absurd (bad (accepted-IsAdequate m.memory image len e))
    ]

-- A complete tree whose kernel is not smaller than the image.
pub too_large-Refuses :
    (b : Build) (m : Machine) (image kern_image_len : ℕ) (gs : List Tag)
    → IsAdequate m.memory image kern_image_len
    → (blob : IsBlob m.memory image gs) → blob.t ≤ b.fuel
    → first_missing blob.p gs needed ≡ none
    → kern_image_len < 2 ^ 32
    → kern_image_len ≤ (find blob.p kernel_node_name (codes "data") false gs 0).len
    → Says (minus 99) m (handle_fit_header b image kern_image_len m)
too_large-Refuses b m image len gs adequate blob enough h below large =
    let src = find blob.p kernel_node_name (codes "data") false gs 0 in
    let word_size =
      find-len m.memory blob.p blob.n blob.t kernel_node_name (codes "data") blob.bound false gs 0
        blob.tags in
    let large_test : leb len src.len ≡ true = ground arith in
    complete-then (Says (minus 99) m) b m image len gs adequate blob enough h
      (rw large_test (mismatch-Says src.len len word_size below m))
