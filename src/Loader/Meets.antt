-- ===== src/Loader/Meets.antt =====
-- What `load_image` of src/loader.c does with an image of any content.
use qcom_ipq_aux_loader.Base.{
  ℕ, ◌+◌, ◌-◌, ◌^◌, ◌≤◌, ◌<◌, ◌≡◌, refl, List, [], Bool-cases, inl, inr, arith, add32, sub32, ltb,
  leb, ◌==◌, if◌then◌else◌,
}
use qcom_ipq_aux_loader.Base.Int.{ℤ, minus, is_nonzero}
use qcom_ipq_aux_loader.Machine.Memory.{Memory}
use qcom_ipq_aux_loader.Machine.Memory.Laws.{load32-lt}
use qcom_ipq_aux_loader.Machine.Run.{Machine, M, Run, ok}
use qcom_ipq_aux_loader.Machine.Touches.{touched}
use qcom_ipq_aux_loader.Board.Swap.{ntohl-load32, ntohl-lt}
use qcom_ipq_aux_loader.Fdt.{word, Reply, fdt_check_header}
use qcom_ipq_aux_loader.Fdt.Header.{IsAdequate}
use qcom_ipq_aux_loader.Fdt.Finishes.{IsBounded, get_prop-Returns}
use qcom_ipq_aux_loader.Lzma.Returns.{Answers}
use qcom_ipq_aux_loader.Loader.Given.{Build}
use qcom_ipq_aux_loader.Loader.Memcpy.Stops.{memcpy-stops}
use qcom_ipq_aux_loader.Loader.Legacy.{handle_legacy_header}
use qcom_ipq_aux_loader.Loader.Legacy.Handler.{
  ih_size, ih_load, ih_ep, with_kernel, legacy_fits_lem, legacy_too_large,
}
use qcom_ipq_aux_loader.Loader.Fit.{need_prop, fit_mismatch, fit_load, fit_props, handle_fit_header}
use qcom_ipq_aux_loader.Loader.Fit.Loads.{fit_load-copies}
use qcom_ipq_aux_loader.Loader.Fit.Refuses.{corrupted-Says, mismatch-Says, accepted-IsAdequate}
use qcom_ipq_aux_loader.Loader.FitBoot.{word-lt}
use qcom_ipq_aux_loader.Loader.Verdict.{
  Verdict, start, refuse, Loaded, image_len, image_magic, unknown-Says,
}
use qcom_ipq_aux_loader.Loader.{legacy_ih_magic, fit_ih_magic, handle_magic, load_image}

-- The image has room for a legacy header, and ends before the last word of the address space.
pub record IsLinked (b : Build) : Type 0 where
  pub header : b.kernel_data_start + 64 ≤ b.kernel_data_end
  pub below : b.kernel_data_end + 4 < 2 ^ 32

-- A run that does what some verdict says.
abbrev pub Meets : Machine → Run ℤ → Type 0
Meets m r = (v : Verdict) × Loaded v m r

legacy-Meets :
    (b : Build) (m : Machine)
    → IsLinked b
    → Meets m (handle_legacy_header b.kernel_data_start (image_len b) m)
legacy-Meets b m linked =
    let image = b.kernel_data_start in
    let size = ih_size m.memory image in
    let len : sub32 (image_len b) 64 ≡ b.kernel_data_end - image - 64 =
      omega (arith, linked.header, linked.below) in
    elim (Bool-cases (ltb (sub32 (image_len b) 64) size)) [
      | inl large ↦ (
        refuse (minus 99),
        (legacy_too_large m image (image_len b) (omega arith) (ground arith), refl),
      )
      | inr fits ↦
          let within : size ≤ sub32 (image_len b) 64 = ground arith in
          let (mem', e) =
            memcpy-stops m.memory (ih_load m.memory image) (image + 64) size
              (omega (arith, linked.header, linked.below)) in
          let (s, f) =
            legacy_fits_lem m image (image_len b) mem' within
              (omega (arith, linked.header, linked.below)) e in
          (
            start (ih_ep m.memory image),
            (
              with_kernel m s mem' (ih_ep m.memory image),
              f,
              refl,
              refl,
              word-lt m.memory (add32 image 20),
            ),
          )
    ]

need_prop-bounded :
    (P : Run ℤ → Type 0) (m : Machine) (image fuel z : ℕ) (node prop : List ℕ) (code : ℤ)
    (go_on : Reply → M ℤ)
    → IsBounded m.memory
        (add32 image (word m.memory (add32 image 8)))
        (add32 image (word m.memory (add32 image 4)))
        z
        fuel
    → P (ok code m)
    → ((r : Reply) → r.ptr + r.len + 7 < 2 ^ 32 → P (go_on r m))
    → P (need_prop fuel image node prop code go_on m)
unfolding need_prop
need_prop-bounded P m image fuel z node prop code go_on bounded missing rest =
    let (r, e, inside, _) = get_prop-Returns m.memory image fuel z node prop bounded in
    elim (Bool-cases (r.ptr == 0)) [
      | inl null ↦ rw (e, null) missing
      | inr there ↦ rw (e, there) (rest r inside)
    ]

load-Meets :
    (b : Build) (m : Machine) (dst ep : ℕ) (src dtb : Reply)
    → Answers b.decoder
    → ep < 2 ^ 32
    → dtb.ptr + dtb.len + 7 < 2 ^ 32
    → Meets m (fit_load b dst ep src dtb m)
load-Meets b m dst ep src dtb answers below inside =
    let (t, _, _, loads) = fit_load-copies b dst ep src dtb m answers in
    let (mem, e) = memcpy-stops t.memory b.workspace dtb.ptr dtb.len (omega arith) in
    (
      start ep,
      (
        record (touched t m) { memory = mem; kernel_entry = ep; kernel_p2 = b.workspace },
        loads mem e,
        refl,
        refl,
        below,
      ),
    )

sized-Meets :
    (b : Build) (m : Machine) (len dst ep : ℕ) (src dtb : Reply)
    → Answers b.decoder
    → len < 2 ^ 32
    → src.len < 2 ^ 32
    → ep < 2 ^ 32
    → dtb.ptr + dtb.len + 7 < 2 ^ 32
    → Meets m ((if leb len src.len then fit_mismatch src.len len else fit_load b dst ep src dtb) m)
sized-Meets b m len dst ep src dtb answers small size below inside =
    elim (Bool-cases (leb len src.len)) [
      | inl large ↦ rw large (refuse (minus 99), (mismatch-Says src.len len size small m, refl))
      | inr fits ↦ rw fits (load-Meets b m dst ep src dtb answers below inside)
    ]

-- What the image has to be like if it is a FIT image whose header is accepted.
abbrev pub FitBounded : Build → Memory → ℕ → Type 0
FitBounded b mem z =
    IsAdequate mem b.kernel_data_start (image_len b)
    → IsBounded mem (add32 b.kernel_data_start (word mem (add32 b.kernel_data_start 8)))
        (add32 b.kernel_data_start (word mem (add32 b.kernel_data_start 4))) z b.fuel

fit-Meets :
    (b : Build) (m : Machine) (z : ℕ)
    → Answers b.decoder
    → FitBounded b m.memory z
    → Meets m (handle_fit_header b b.kernel_data_start (image_len b) m)
unfolding handle_fit_header fit_props
fit-Meets b m z answers bounded =
    let image = b.kernel_data_start in
    let ret = fdt_check_header m.memory image (image_len b) in
    elim (Bool-cases (is_nonzero ret)) [
      | inl bad ↦ rw bad (refuse (minus 99), (corrupted-Says ret m, refl))
      | inr good ↦
          let h = accepted-IsAdequate m.memory image (image_len b) good in
          rw good (
            need h _ _ _ _ (refuse (minus 98), (([], refl), refl))
              λ name _.
                need h _ _ _ _ (refuse (minus 97), (([], refl), refl))
                  λ load _.
                    need h _ _ _ _ (refuse (minus 96), (([], refl), refl))
                      λ entry _.
                        need h _ _ _ _ (refuse (minus 95), (([], refl), refl))
                          λ src src_inside.
                            need h _ _ _ _ (refuse (minus 94), (([], refl), refl))
                              λ compr _.
                                need h _ _ _ _ (refuse (minus 93), (([], refl), refl))
                                  λ dtb inside.
                                    sized-Meets b m (image_len b) _ _ src dtb answers (omega arith)
                                      (omega arith) (ntohl-lt _ (load32-lt m.memory entry.ptr))
                                      inside)
    ]
  where
    need :
        IsAdequate m.memory b.kernel_data_start (image_len b)
        → (node prop : List ℕ) (code : ℤ) (go_on : Reply → M ℤ) → Meets m (ok code m)
        → ((r : Reply) → r.ptr + r.len + 7 < 2 ^ 32 → Meets m (go_on r m))
        → Meets m (need_prop b.fuel b.kernel_data_start node prop code go_on m)
    need h node prop code go_on missing rest =
        need_prop-bounded (Meets m) m b.kernel_data_start b.fuel z node prop code go_on (bounded h)
          missing rest

pub load_image-Meets :
    (b : Build) (m : Machine) (z : ℕ)
    → IsLinked b
    → Answers b.decoder
    → FitBounded b m.memory z
    → Meets m (load_image b m)
unfolding load_image handle_magic
load_image-Meets b m z linked answers bounded =
    elim (Bool-cases (image_magic b m.memory == legacy_ih_magic)) [
      | inl legacy ↦ rw (ntohl-load32, legacy) (legacy-Meets b m linked)
      | inr other ↦ elim (Bool-cases (image_magic b m.memory == fit_ih_magic)) [
        | inl fit ↦ rw (ntohl-load32, other, fit) (fit-Meets b m z answers bounded)
        | inr unknown ↦
            rw (ntohl-load32, other, unknown)
              (
                refuse (minus 100),
                (
                  unknown-Says (image_magic b m.memory) m (word-lt m.memory b.kernel_data_start),
                  refl,
                ),
              )
      ]
    ]
