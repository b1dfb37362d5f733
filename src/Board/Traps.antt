-- ===== src/Board/Traps.antt =====
-- The other functions of src/board.c: the dump of eight bytes, and what the run-time routines for
-- division call.
use qcom_ipq_aux_loader.Base.{ℕ, zero, suc, codes, List, [], ◌∷◌, bit_and, add32}
use qcom_ipq_aux_loader.Base.Int.{ℤ, pos, int_word}
use qcom_ipq_aux_loader.Machine.Memory.{Memory, load8}
use qcom_ipq_aux_loader.Machine.Run.{M, for_ever, get_memory, pure, ◌>>=◌, ◌>>◌}
use qcom_ipq_aux_loader.Machine.Console.{print}
use qcom_ipq_aux_loader.Printf.Format.{Arg, word, text}

-- The eight bytes that stand at an address.
abbrev pub dumped : Memory → ℕ → ℕ → List Arg
dumped mem p zero = []
dumped mem p (suc n) = word (bit_and (load8 mem p) 0xff) ∷ dumped mem (add32 p 1) n

-- `dump_mem(p, str)`
unfoldable pub dump_mem : ℕ → List ℕ → M (Unit {0})
dump_mem p str = do
  mem ← get_memory
  print (codes "  %s(0x%08X) = %02x %02x %02x %02x %02x %02x %02x %02x\n")
      (text str ∷ word p ∷ dumped mem p 8)

unfoldable pub hang : M (Unit {0})
hang = do print (codes "### ERROR ### Please RESET the board ###\n") []; for_ever

unfoldable pub raise : ℤ → M ℤ
raise signum = do
  print (codes "raise: Signal # %d caught\n") (word (int_word signum) ∷ [])
  pure (pos 0)

-- `__div0`
unfoldable pub div0 : M (Unit {0})
unfolding hang
div0 = hang
