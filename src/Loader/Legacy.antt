-- ===== src/Loader/Legacy.antt =====
-- `handle_legacy_header` of src/loader.c, over src/include/uimage/legacy.h.
pub mod Handler
use qcom_ipq_aux_loader.Base.{ℕ, [], ◌∷◌, codes, add32, sub32, ltb, if◌then◌else◌}
use qcom_ipq_aux_loader.Base.Int.{ℤ, pos, minus}
use qcom_ipq_aux_loader.Machine.Memory.{load32}
use qcom_ipq_aux_loader.Machine.Run.{M, ◌>>=◌, ◌>>◌, pure, get_memory}
use qcom_ipq_aux_loader.Machine.Console.{print}
use qcom_ipq_aux_loader.Printf.Format.{word}
use qcom_ipq_aux_loader.Board.{ntohl}
use qcom_ipq_aux_loader.Loader.Given.{set_kernel_entry, copy}

abbrev pub sizeof_legacy_header : ℕ
sizeof_legacy_header = 64

unfoldable pub legacy_mismatch : ℕ → ℕ → M ℤ
legacy_mismatch kern_image_len kernel_body_len = do
  print (codes "\n") []
  print (codes "Error ! Kernel sizes mismath detected !\n") []
  print (codes "  details: %d - %d < %d !\n")
      (word kern_image_len ∷ word sizeof_legacy_header ∷ word kernel_body_len ∷ [])
  pure (minus 99)

unfoldable pub legacy_copy : ℕ → ℕ → ℕ → ℕ → M ℤ
legacy_copy dst src kernel_body_len kernel_ep = do
  print (codes "Copy kernel...") []
  copy dst src kernel_body_len
  print (codes "Done\n") []
  set_kernel_entry kernel_ep
  pure (pos 0)

unfoldable pub handle_legacy_header : ℕ → ℕ → M ℤ
handle_legacy_header image kern_image_len = do
  mem ← get_memory
  let kernel_load = ntohl (load32 mem (add32 image 16))
  let kernel_ep = ntohl (load32 mem (add32 image 20))
  let size = ntohl (load32 mem (add32 image 12))
  let copied = legacy_copy kernel_load (add32 image sizeof_legacy_header) size kernel_ep
  let too_large = ltb (sub32 kern_image_len sizeof_legacy_header) size
  if too_large then legacy_mismatch kern_image_len size else copied
