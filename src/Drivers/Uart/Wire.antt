-- ===== src/Drivers/Uart/Wire.antt =====
-- What `printf` of src/printf.c makes src/qcom_uart.c send.
use qcom_ipq_aux_loader.Base.{
  ℕ, ◌%◌, ◌^◌, Bool-cases, inl, inr, ◌==◌, if◌then◌else◌, ◌≡◌, refl, ◌∙◌, List, [], ◌∷◌, some, u32,
  All,
}
use qcom_ipq_aux_loader.Machine.Run.{Event, Machine, Run, ok}
use qcom_ipq_aux_loader.Printf.Format.{Arg, with_returns}
use qcom_ipq_aux_loader.Printf.Format.Typed.{IsWord}
use qcom_ipq_aux_loader.Printf.Reference.{Template, format, IsTemplate, render}
use qcom_ipq_aux_loader.Printf.Reference.Agrees.{printf-render}
use qcom_ipq_aux_loader.Drivers.Uart.{
  Block, uart, dm_sr, dm_tf, tx_word, serial_putc, serial_puts, serial_printf,
}
use qcom_ipq_aux_loader.Drivers.Uart.Transmits.{Responds, sent, orderly, put_character-Sends}

-- The word for a character: with a carriage return in its second byte for a line feed.
abbrev pub word_for : ℕ → ℕ
word_for c = if c == 10 then 0x0d0a else c % 2 ^ 32

tx_word_lem : (c : ℕ) → u32 (tx_word c) ≡ word_for c
unfolding tx_word
tx_word_lem c = elim (Bool-cases (c == 10)) [ inl e ↦ rw e refl | inr e ↦ rw e refl ]

-- The words for a text in front of those sent before, newest first.
abbrev pub onto : List ℕ → List ℕ → List ℕ
onto [] words = words
onto (c ∷ s) words = onto s (word_for c ∷ words)

-- A run that returns, has sent a text and nothing else, each word directly behind a status that
-- announced space, and has changed the trace alone.
abbrev pub Transmits : Block → ℕ → List ℕ → Machine → Run (Unit {0}) → Type 0
Transmits block base s m r =
    (events : List Event) × (r ≡ ok tt (record m { trace = events }))
    × (sent (dm_tf block base 0) events ≡ onto s (sent (dm_tf block base 0) m.trace))
    × (orderly (dm_tf block base 0) (dm_sr block base) events
        ≡ orderly (dm_tf block base 0) (dm_sr block base) m.trace)

serial_puts-Transmits :
    (block : Block) (base reads : ℕ) (s : List ℕ) (m : Machine)
    → Responds m.device reads block base
    → Transmits block base s m (serial_puts reads (uart block base) s m)
unfolding serial_puts serial_putc
serial_puts-Transmits block base reads [] m h = (m.trace, refl, refl, refl)
serial_puts-Transmits block base reads (c ∷ s) m h =
    let (events, e, word, order) = put_character-Sends block base reads c m h in
    let (end, f, words, later) =
      serial_puts-Transmits block base reads s (record m { trace = events }) h in
    (end, rw e f, rw (word, tx_word_lem) at words, later ∙ order)

-- On a UART whose transmitter becomes ready in time, `printf` through `serial_putc` returns and has
-- sent what the reference formatter renders, with a carriage return behind each newline, and
-- nothing else: one word per character, in order, each one directly behind a status that announced
-- space. Of the machine only the trace changes. The format and its arguments are those that the
-- reference describes: a text of IsTemplate with arguments that it can render.
pub serial_printf-Transmits :
    (block : Block) (base reads : ℕ) (t : Template) (args : List Arg) (out : List ℕ) (m : Machine)
    → Responds m.device reads block base
    → IsTemplate t
    → All IsWord args
    → render t args ≡ some out
    → Transmits block base
        (with_returns out)
        m
        (serial_printf reads (uart block base) (format t) args m)
unfolding serial_printf
serial_printf-Transmits block base reads t args out m h plain words e =
    rw (printf-render t args out plain words e, serial_printf)
      (serial_puts-Transmits block base reads (with_returns out) m h)
