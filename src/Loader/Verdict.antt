-- ===== src/Loader/Verdict.antt =====
-- What src/loader.c has to do with the image that stands behind it, and that `load_image` does it.
use qcom_ipq_aux_loader.Base.{
  ℕ, ◌^◌, ◌≤◌, ◌<◌, ◌≡◌, ◌≢◌, List, [], ◌∷◌, none, some, codes, refl, true, false, arith, add32,
  sub32, ◌==◌,
}
use qcom_ipq_aux_loader.Base.Int.{ℤ, pos, minus, is_nonzero}
use qcom_ipq_aux_loader.Machine.Memory.{Memory, load32_be}
use qcom_ipq_aux_loader.Machine.Run.{Machine, Run, ok}
use qcom_ipq_aux_loader.Machine.Console.Says.{Says, print-then}
use qcom_ipq_aux_loader.Printf.Format.{word}
use qcom_ipq_aux_loader.Printf.Format.Typed.{typed}
use qcom_ipq_aux_loader.Board.Swap.{ntohl-load32}
use qcom_ipq_aux_loader.Fdt.Layout.{Tag, find}
use qcom_ipq_aux_loader.Fdt.Find.{IsBlob}
use qcom_ipq_aux_loader.Fdt.Header.{IsAdequate}
use qcom_ipq_aux_loader.Lzma.Returns.{Answers}
use qcom_ipq_aux_loader.Loader.Given.{Build}
use qcom_ipq_aux_loader.Loader.Legacy.Handler.{ih_size, ih_ep, with_kernel, legacy_too_large}
use qcom_ipq_aux_loader.Loader.Fit.{kernel_node_name}
use qcom_ipq_aux_loader.Loader.Fit.Missing.{
  needed, first_missing, first_missing-nonzero, fit_missing,
}
use qcom_ipq_aux_loader.Loader.Fit.Refuses.{corrupted-Refuses, too_large-Refuses}
use qcom_ipq_aux_loader.Loader.Starts.{IsLegacy, load_legacy}
use qcom_ipq_aux_loader.Loader.FitBoot.{IsFit, load_fit, word-lt}
use qcom_ipq_aux_loader.Loader.{
  legacy_ih_magic, fit_ih_magic, unknown_magic, handle_magic, load_image,
}

-- Start a kernel at an address, or refuse the image with a code.
pub data Verdict : Type 0 where
  start : ℕ → Verdict
  refuse : ℤ → Verdict

abbrev pub image_len : Build → ℕ
image_len b = sub32 b.kernel_data_end b.kernel_data_start

abbrev pub image_magic : Build → Memory → ℕ
image_magic b mem = load32_be mem b.kernel_data_start

-- A tree that can be searched within the fuel.
pub record IsTree (b : Build) (mem : Memory) (gs : List Tag) : Type 0 where
  pub adequate : IsAdequate mem b.kernel_data_start (image_len b)
  pub blob : IsBlob mem b.kernel_data_start gs
  pub enough : blob.t ≤ b.fuel

pub data Decides (b : Build) (mem : Memory) : Verdict → Type 0 where
  unknown :
      image_magic b mem ≢ legacy_ih_magic
      → image_magic b mem ≢ fit_ih_magic
      → Decides b mem (refuse (minus 100))
  legacy_too_long :
      image_magic b mem ≡ legacy_ih_magic
      → sub32 (image_len b) 64 < ih_size mem b.kernel_data_start
      → Decides b mem (refuse (minus 99))
  legacy_fits : IsLegacy b mem → Decides b mem (start (ih_ep mem b.kernel_data_start))
  fit_corrupt :
      image_magic b mem ≡ fit_ih_magic
      → ¬ IsAdequate mem b.kernel_data_start (image_len b)
      → Decides b mem (refuse (minus 99))
  fit_incomplete :
      (gs : List Tag) (tree : IsTree b mem gs) (a : ℤ)
      → first_missing tree.blob.p gs needed ≡ some a
      → Decides b mem (refuse a)
  fit_too_long :
      (gs : List Tag) (tree : IsTree b mem gs)
      → first_missing tree.blob.p gs needed ≡ none
      → image_len b ≤ (find tree.blob.p kernel_node_name (codes "data") false gs 0).len
      → Decides b mem (refuse (minus 99))
  fit_complete :
      (gs : List Tag) (fit : IsFit b mem gs)
      → Decides b mem
          (start (load32_be mem (find fit.blob.p kernel_node_name (codes "entry") false gs 0).ptr))

pub unknown-Says :
    (magic : ℕ) (m : Machine) → magic < 2 ^ 32 → Says (minus 100) m (unknown_magic magic m)
unfolding unknown_magic typed
unknown-Says magic m h =
    print-then (codes "  magic = 0x%x, UNKNOWN !!!\n") (word magic ∷ []) _ _ m refl (h, tt)
      λ s. ([], refl)

-- What the verdict means for `load_image`: the kernel's entry point is set, with the machine's
-- number kept as its second parameter, or nothing has happened but output.
abbrev pub Loaded : Verdict → Machine → Run ℤ → Type 0
Loaded (start entry) m r =
    (m' : Machine) × (r ≡ ok (pos 0) m')
    × (m'.kernel_entry ≡ entry)
    × (m'.kernel_p1 ≡ m.kernel_p1)
    × (entry < 2 ^ 32)
Loaded (refuse code) m r = Says code m r × (is_nonzero code ≡ true)

-- For every image that the verdict covers and whatever words the LZMA decoder answers,
-- `load_image` does what the verdict says: for a start it returns 0 with the entry point set and
-- the machine's number kept, and for a refusal it returns the code, which is not 0, and has only
-- printed.
pub load_image-Loaded :
    (b : Build) (m : Machine) {v : Verdict}
    → Answers b.decoder
    → Decides b m.memory v
    → Loaded v m (load_image b m)
unfolding load_image handle_magic
load_image-Loaded b m answers (unknown other_than_legacy other_than_fit) =
    let first : (image_magic b m.memory == legacy_ih_magic) ≡ false = ground arith in
    let second : (image_magic b m.memory == fit_ih_magic) ≡ false = ground arith in
    (
      rw (ntohl-load32, first, second)
          (unknown-Says (image_magic b m.memory) m (word-lt m.memory b.kernel_data_start)),
      refl,
    )
load_image-Loaded b m answers (legacy_too_long magic large) = (
  rw (ntohl-load32, magic)
      (legacy_too_large m b.kernel_data_start (image_len b) (omega arith) large),
  refl,
)
load_image-Loaded b m answers (legacy_fits l) =
    let (s, mem', e, c) = load_legacy b m l in
    (
      with_kernel m s mem' (ih_ep m.memory b.kernel_data_start),
      e,
      refl,
      refl,
      word-lt m.memory (add32 b.kernel_data_start 20),
    )
load_image-Loaded b m answers (fit_corrupt magic bad) =
    (rw (ntohl-load32, magic) (corrupted-Refuses b m b.kernel_data_start (image_len b) bad), refl)
load_image-Loaded b m answers (fit_incomplete gs tree a missing) = (
  rw (ntohl-load32, tree.adequate.magic)
      (
        [],
        fit_missing b m b.kernel_data_start (image_len b) gs a tree.adequate tree.blob tree.enough
            missing,
      ),
  first_missing-nonzero tree.blob.p gs needed a (refl, (refl, (refl, (refl, (refl, (refl, tt))))))
      missing,
)
load_image-Loaded b m answers (fit_too_long gs tree complete large) = (
  rw (ntohl-load32, tree.adequate.magic)
      (too_large-Refuses b m b.kernel_data_start (image_len b) gs tree.adequate tree.blob
        tree.enough complete (omega arith) large),
  refl,
)
load_image-Loaded b m answers (fit_complete gs fit) =
    let l = load_fit b m gs fit answers in (l.end, l.ends, l.entry, l.arch, word-lt m.memory _)
