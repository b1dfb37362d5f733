-- ===== src/Loader/Fit.antt =====
-- `handle_fit_header` of src/loader.c.
pub mod Missing
pub mod Loads
pub mod Accepts
pub mod Unpacks
pub mod Refuses
use qcom_ipq_aux_loader.Base.{ℕ, List, [], ◌∷◌, codes, add32, sub32, ltb, leb, ◌==◌, if◌then◌else◌}
use qcom_ipq_aux_loader.Base.Int.{int_word, ℤ, pos, minus, is_nonzero}
use qcom_ipq_aux_loader.Machine.Memory.{load32}
use qcom_ipq_aux_loader.Machine.Run.{M, ◌>>=◌, ◌>>◌, ok, pure, get_memory, finished}
use qcom_ipq_aux_loader.Machine.Console.{print}
use qcom_ipq_aux_loader.Printf.Format.{word}
use qcom_ipq_aux_loader.Fdt.{Reply, fdt_check_header, fdt_get_prop}
use qcom_ipq_aux_loader.Board.{ntohl}
use qcom_ipq_aux_loader.Lzma.{lzma_gogogo}
use qcom_ipq_aux_loader.Cache.Control.{enable_caches, cleanup_before_linux}
use qcom_ipq_aux_loader.Drivers.Watchdog.{watchdog_setup}
use qcom_ipq_aux_loader.Loader.Given.{
  Build, set_kernel_entry, set_kernel_p2, bi_dram_0_set_ranges, copy,
}

abbrev pub kernel_node_name : List ℕ
kernel_node_name = codes "kernel@1"

abbrev pub dtb_node_name : List ℕ
dtb_node_name = codes "fdt@1"

-- `if (!(p = fdt_get_prop(image, node, prop, &len))) return code;`
unfoldable pub need_prop : ℕ → ℕ → List ℕ → List ℕ → ℤ → (Reply → M ℤ) → M ℤ
need_prop fuel image node prop code go_on = do
  mem ← get_memory
  r ← finished (fdt_get_prop mem fuel image node prop)
  if r.ptr == 0 then pure code else go_on r

unfoldable pub fit_corrupted : ℤ → M ℤ
fit_corrupted ret = do
  print (codes "Error ! FDT header is corrupted! check_ret = %d\n") (word (int_word ret) ∷ [])
  pure (minus 99)

unfoldable pub fit_mismatch : ℕ → ℕ → M ℤ
fit_mismatch kernel_body_len kern_image_len = do
  print (codes "\n") []
  print (codes "Error ! Kernel sizes mismath detected !\n") []
  print (codes "  details: %d >= %d !\n") (word kernel_body_len ∷ word kern_image_len ∷ [])
  pure (minus 99)

-- The result of `lzma_gogogo` is not looked at.
unfoldable pub uncompress : Build → ℕ → Reply → M (Unit {0})
uncompress b dst src = do
  bi_dram_0_set_ranges dst (add32 (sub32 src.ptr dst) 0x200_0000)
  enable_caches b.page_table
  lzma_gogogo b.decoder b.workspace dst src.ptr src.len >>= λ _. pure tt

unfoldable pub fit_load : Build → ℕ → ℕ → Reply → Reply → M ℤ
fit_load b kernel_load kernel_ep src dtb = do
  print (codes "Extracting LZMA kernel...") []
  watchdog_setup b.cpu 30
  if ltb kernel_load src.ptr then uncompress b kernel_load src else pure tt
  cleanup_before_linux b.cpu
  copy b.workspace dtb.ptr dtb.len
  set_kernel_entry kernel_ep
  set_kernel_p2 b.workspace
  pure (pos 0)

-- A word that a property's value starts with.
abbrev pub value_word : Reply → M ℕ
value_word r m = ok (ntohl (load32 m.memory r.ptr)) m

unfoldable pub fit_props : Build → ℕ → ℕ → M ℤ
fit_props b image kern_image_len =
    need_prop b.fuel image kernel_node_name (codes "description") (minus 98) λ name.
      need_prop b.fuel image kernel_node_name (codes "load") (minus 97) λ load.
        value_word load >>= λ kernel_load.
        need_prop b.fuel image kernel_node_name (codes "entry") (minus 96) λ entry.
          value_word entry >>= λ kernel_ep.
          need_prop b.fuel image kernel_node_name (codes "data") (minus 95) λ src.
            need_prop b.fuel image kernel_node_name (codes "compression") (minus 94) λ compr.
              need_prop b.fuel image dtb_node_name (codes "data") (minus 93) λ dtb.
                if leb kern_image_len src.len
                then fit_mismatch src.len kern_image_len
                else fit_load b kernel_load kernel_ep src dtb

unfoldable pub handle_fit_header : Build → ℕ → ℕ → M ℤ
handle_fit_header b image kern_image_len = do
  mem ← get_memory
  let ret = fdt_check_header mem image kern_image_len
  if is_nonzero ret then fit_corrupted ret else fit_props b image kern_image_len
