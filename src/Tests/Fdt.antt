-- ===== src/Tests/Fdt.antt =====
-- Device trees in memory.
use qcom_ipq_aux_loader.Base.{
  ℕ, ◌+◌, ◌≡◌, ◌↔◌, Bool, true, not, ◌&&◌, ◌==◌, and-eq-true, refl, some, none, false, List, [],
  ◌∷◌, codes, arith,
}
use qcom_ipq_aux_loader.Machine.Memory.{Memory, load8, load32, load32_be}
use qcom_ipq_aux_loader.Board.{ntohl}
use qcom_ipq_aux_loader.Fdt.{fdt_get_prop, fdt_check_header}
use qcom_ipq_aux_loader.Fdt.Layout.{Tag, opens, prop, closes, Lays, find}
use qcom_ipq_aux_loader.Fdt.Text.{CString}
use qcom_ipq_aux_loader.Fdt.Find.{IsBlob, get_prop-find}
use qcom_ipq_aux_loader.Fdt.Header.{IsAdequate, check_header_iff}
use qcom_ipq_aux_loader.Fdt.Hostile.{get_prop-IsTrap}
use qcom_ipq_aux_loader.Base.Int.{pos}
use qcom_ipq_aux_loader.Loader.Fit.Missing.{has_no_nul, text}
use qcom_ipq_aux_loader.Tests.Data.{bytes_at, blob, trap}

abbrev pub tags : List Tag
tags = opens [] ∷ opens (codes "kernel@1") ∷ prop (codes "load") 4 ∷ closes ∷ closes ∷ []

-- A test for strings in memory.
unfoldable pub is_cstring : Memory → ℕ → List ℕ → Bool
is_cstring mem a [] = load8 mem a == 0
is_cstring mem a (c ∷ s) = (load8 mem a == c) && (not (c == 0) && is_cstring mem (a + 1) s)

pub cstring : (mem : Memory) (a : ℕ) (s : List ℕ) → is_cstring mem a s ≡ true → CString mem a s
unfolding is_cstring
cstring mem a [] h = ground arith
cstring mem a (c ∷ s) h =
    let (first, others) = and-eq-true _ _ h in
    let (nonzero, rest) = and-eq-true _ _ others in
    (ground arith, (λ e. ground arith), cstring mem (a + 1) s rest)

pub blob_tags : Lays (bytes_at blob) 4136 4188 4196 tags 0
unfolding ntohl load32 load8 is_cstring
blob_tags = (
  (refl, refl, omega arith),
  (
    (refl, cstring (bytes_at blob) 4148 (codes "kernel@1") refl, omega arith),
    (
      (refl, refl, omega arith, cstring (bytes_at blob) 4188 (codes "load") refl, omega arith),
      ((refl, omega arith), ((refl, omega arith), (refl, omega arith))),
    ),
  ),
)

unfoldable pub blob-IsBlob : IsBlob (bytes_at blob) 4096 tags
unfolding load8 load32_be
blob-IsBlob = record {
  p = 4136;
  n = 4188;
  t = 4196;
  struct_at = refl;
  strings_at = refl;
  ends_at = refl;
  bound = omega arith;
  strings_before = omega arith;
  image_before = omega arith;
  tags = blob_tags;
}

pub blob-IsAdequate : IsAdequate (bytes_at blob) 4096 100
unfolding load8 load32_be
blob-IsAdequate = record {
  magic = refl;
  fits = omega arith;
  version = omega arith;
  last_comp_version = omega arith;
  struct_pos = omega arith;
  struct_inside = omega arith;
  strings_pos = omega arith;
  strings_inside = omega arith;
}

get_prop-find_example :
    fdt_get_prop (bytes_at blob) 5000 4096 (codes "kernel@1") (codes "load")
    ≡ some (find 4136 (codes "kernel@1") (codes "load") false tags 0)
unfolding has_no_nul blob-IsBlob
get_prop-find_example =
    get_prop-find (bytes_at blob) 4096 5000 tags (codes "kernel@1") (codes "load") blob-IsBlob
      (text (codes "kernel@1") refl) (text (codes "load") refl) (omega arith)

-- The value stands at 4172 and has four bytes.
found : find 4136 (codes "kernel@1") (codes "load") false tags 0 ≡ record { ptr = 4172; len = 4 }
found = refl

check_header_iff_example :
    (fdt_check_header (bytes_at blob) 4096 100 ≡ pos 0) ↔ IsAdequate (bytes_at blob) 4096 100
check_header_iff_example = check_header_iff (bytes_at blob) 4096 100

get_prop-IsTrap_example :
    fdt_get_prop (bytes_at trap) 5000 4096 (codes "kernel@1") (codes "load") ≡ none
unfolding ntohl load32 load8
get_prop-IsTrap_example =
    get_prop-IsTrap (bytes_at trap) 4096 5000 (codes "kernel@1") (codes "load")
      (record { bound = omega arith; inside = omega arith; tag = refl; len = refl })
