-- ===== src/Drivers/Uart.antt =====
-- `serial_putc` of src/qcom_uart.c, and `printf` over it. Polling loops are given a number of
-- reads.
pub mod Transmits
pub mod Refines
pub mod Wire
use qcom_ipq_aux_loader.Base.{
  ℕ, zero, suc, ◌+◌, ◌*◌, ◌^◌, List, [], ◌∷◌, bit_and, bit_or, shl32, add32, ◌==◌, if◌then◌else◌,
}
use qcom_ipq_aux_loader.Machine.Run.{
  M, ◌>>=◌, ◌>>◌, fault, out_of_fuel, pure, for_ever, writel, readl,
}
use qcom_ipq_aux_loader.Printf.Format.{Arg, done, fatal, undefined, out_of_fuel, printf}

-- The two layouts of the register block, `blsp` if PERIPH_BLK_BLSP is set.
pub data Block : Type 0 where
  gsbi blsp : Block

-- What the build fixes. `none` is UARTx_DM_BASE=NONE, the Makefile's default.
pub data Uart : Type 0 where
  none : Uart
  uart : Block → ℕ → Uart

abbrev pub dm_no_chars_for_tx : ℕ → ℕ
dm_no_chars_for_tx base = add32 base 0x40

abbrev pub dm_cr : Block → ℕ → ℕ
dm_cr blsp base = add32 base 0xa8
dm_cr gsbi base = add32 base 0x10

abbrev pub dm_sr : Block → ℕ → ℕ
dm_sr blsp base = add32 base 0xa4
dm_sr gsbi base = add32 base 0x8

abbrev pub dm_tf : Block → ℕ → ℕ → ℕ
dm_tf blsp base x = add32 base (0x100 + 4 * x)
dm_tf gsbi base x = add32 base (0x70 + 4 * x)

abbrev pub dm_isr : Block → ℕ → ℕ
dm_isr blsp base = add32 base 0xb4
dm_isr gsbi base = add32 base 0x14

abbrev pub gcmd_res_tx_rdy_int : ℕ
gcmd_res_tx_rdy_int = 3 * 2 ^ 8

abbrev pub sr_txrdy : ℕ
sr_txrdy = 2 ^ 2

abbrev pub sr_txemt : ℕ
sr_txemt = 2 ^ 3

abbrev pub tx_ready : ℕ
tx_ready = 2 ^ 7

-- `while(!(readl(a) & mask));`
unfoldable pub wait_for : ℕ → ℕ → ℕ → M (Unit {0})
wait_for zero a mask = λ m. out_of_fuel
wait_for (suc reads) a mask = do
  v ← readl a
  let again = wait_for reads a mask
  if bit_and v mask == 0 then again else pure tt

-- The word put into the FIFO for a character.
unfoldable pub tx_word : ℕ → ℕ
tx_word c = if c == 10 then bit_or (shl32 13 8) 10 else c

-- What is done once the FIFO is empty.
unfoldable pub send_word : ℕ → Block → ℕ → ℕ → M (Unit {0})
send_word reads block base c = do
  writel 1 (dm_no_chars_for_tx base)
  writel gcmd_res_tx_rdy_int (dm_cr block base)
  wait_for reads (dm_sr block base) sr_txrdy
  writel (tx_word c) (dm_tf block base 0)

unfoldable pub put_character : ℕ → Block → ℕ → ℕ → M (Unit {0})
put_character reads block base c = do
  status ← readl (dm_sr block base)
  if bit_and status sr_txemt == 0 then wait_for reads (dm_isr block base) tx_ready else pure tt
  send_word reads block base c

unfoldable pub serial_putc : ℕ → Uart → ℕ → M (Unit {0})
unfolding put_character
serial_putc reads none c = pure tt
serial_putc reads (uart block base) c = put_character reads block base c

-- The calls of `serial_putc` for the bytes of a text.
unfoldable pub serial_puts : ℕ → Uart → List ℕ → M (Unit {0})
unfolding serial_putc
serial_puts reads u [] = pure tt
serial_puts reads u (c ∷ s) = do serial_putc reads u c; serial_puts reads u s

-- `printf` with every byte sent to the UART.
unfoldable pub serial_printf : ℕ → Uart → List ℕ → List Arg → M (Unit {0})
unfolding serial_puts
serial_printf reads u fmt args m = elim (printf fmt args) [
  | done s ↦ serial_puts reads u s m
  | fatal s ↦ (serial_puts reads u s >> for_ever) m
  | undefined ↦ fault
  | out_of_fuel ↦ out_of_fuel
]
