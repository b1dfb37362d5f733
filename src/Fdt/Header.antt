-- ===== src/Fdt/Header.antt =====
-- `fdt_check_header` of src/fdt.c, and adequate headers.
use qcom_ipq_aux_loader.Base.{ℕ, ◌≤◌, ◌<◌, ◌≡◌, ◌↔◌, arith, add32}
use qcom_ipq_aux_loader.Base.Int.{pos}
use qcom_ipq_aux_loader.Machine.Memory.{Memory, load32_be}
use qcom_ipq_aux_loader.Board.Swap.{ntohl-load32}
use qcom_ipq_aux_loader.Fdt.{
  fdt_magic_word, first_supported_version, last_supported_version, fdt_check_header,
}

-- The seven words of `struct fdt_header` that are looked at, as big-endian numbers.
pub record IsAdequate (mem : Memory) (image data_size : ℕ) : Type 0 where
  pub magic : load32_be mem image ≡ fdt_magic_word
  pub fits : load32_be mem (add32 image 4) ≤ data_size
  pub version : first_supported_version ≤ load32_be mem (add32 image 20)
  pub last_comp_version : load32_be mem (add32 image 24) ≤ last_supported_version
  pub struct_pos : 0 < load32_be mem (add32 image 8)
  pub struct_inside : load32_be mem (add32 image 8) < load32_be mem (add32 image 4)
  pub strings_pos : 0 < load32_be mem (add32 image 12)
  pub strings_inside : load32_be mem (add32 image 12) < load32_be mem (add32 image 4)

-- `fdt_check_header` returns 0 exactly when the header has the FDT magic, its total size fits the
-- data, its versions are supported, and both offsets are positive and below the total size.
pub check_header_iff :
    (mem : Memory) (image data_size : ℕ)
    → (fdt_check_header mem image data_size ≡ pos 0) ↔ IsAdequate mem image data_size
unfolding fdt_check_header
check_header_iff mem image data_size = simp ntohl-load32 (ground arith)
