-- ===== src/Drivers/Uart/Refines.antt =====
-- `printf` whose bytes go through `serial_putc` of src/qcom_uart.c, against `printf` whose bytes
-- are events.
use qcom_ipq_aux_loader.Base.{ℕ, ◌≡◌, refl, ap, ◌∙◌, List, [], ◌∷◌, true, u32}
use qcom_ipq_aux_loader.Machine.Run.{
  Event, wrote, loaded, putc, mcr, jump, Machine, Run, ok, hang, fault, out_of_fuel, and_then,
}
use qcom_ipq_aux_loader.Machine.Console.{say, print}
use qcom_ipq_aux_loader.Printf.Format.{Arg, Out, done, fatal, undefined, out_of_fuel, printf}
use qcom_ipq_aux_loader.Drivers.Uart.{
  Block, uart, dm_sr, dm_tf, tx_word, serial_putc, serial_puts, serial_printf,
}
use qcom_ipq_aux_loader.Drivers.Uart.Transmits.{Responds, sent, orderly, put_character-Sends}

-- The words for the bytes printed in a trace, newest first.
abbrev pub printed : List Event → List ℕ
printed [] = []
printed (putc c ∷ events) = u32 (tx_word c) ∷ printed events
printed (wrote a v ∷ events) = printed events
printed (loaded a v ∷ events) = printed events
printed (mcr r v ∷ events) = printed events
printed (jump e p q r ∷ events) = printed events

-- Two machines that differ in their traces alone: the first has printed what the second has sent
-- through the UART, each word in its turn.
pub record Agrees (block : Block) (base : ℕ) (a m : Machine) : Type 0 where
  pub same : m ≡ record a { trace = m.trace }
  pub words : sent (dm_tf block base 0) m.trace ≡ printed a.trace
  pub order : orderly (dm_tf block base 0) (dm_sr block base) m.trace ≡ true

-- Runs that end alike, in machines that agree.
pub data Refines (block : Block) (base : ℕ) : Run (Unit {0}) → Run (Unit {0}) → Type 0 where
  returns : (a m : Machine) → Agrees block base a m → Refines block base (ok tt a) (ok tt m)
  hangs : (a m : Machine) → Agrees block base a m → Refines block base (hang a) (hang m)
  faults : Refines block base fault fault
  starves : Refines block base out_of_fuel out_of_fuel

module _ (reads : ℕ) (block : Block) (base : ℕ) where
  serial_puts-Agrees :
      (s : List ℕ) (a m : Machine)
      → Responds a.device reads block base
      → Agrees block base a m
      → (end : Machine) × (serial_puts reads (uart block base) s m ≡ ok tt end)
        × Agrees block base (say s a) end
  unfolding serial_puts serial_putc
  serial_puts-Agrees [] a m h g = (m, refl, g)
  serial_puts-Agrees (c ∷ s) a m h g =
      let (events, e, word, order) =
        put_character-Sends block base reads c (record a { trace = m.trace }) h in
      let next : Agrees block base (record a { trace = putc c ∷ a.trace })
          (record a { trace = events }) =
        record {
          same = refl;
          words = word ∙ ap (λ w. u32 (tx_word c) ∷ w) g.words;
          order = order ∙ g.order;
        } in
      let (end, f, agrees) =
        serial_puts-Agrees s (record a { trace = putc c ∷ a.trace }) (record a { trace = events }) h
          next in
      (end, rw (g.same, e) f, agrees)

-- On a UART whose transmitter becomes ready in time, `printf` through `serial_putc` ends as the
-- `printf` that only records its bytes, for every format and all arguments: it has sent one word
-- per byte, in order, each one directly behind a status that announced space, and has changed
-- nothing but the trace.
pub serial_printf-Refines :
    (reads : ℕ) (block : Block) (base : ℕ) (fmt : List ℕ) (args : List Arg) (a m : Machine)
    → Responds a.device reads block base
    → Agrees block base a m
    → Refines block base (print fmt args a) (serial_printf reads (uart block base) fmt args m)
unfolding print serial_printf
serial_printf-Refines reads block base fmt args a m h g = outcome (printf fmt args)
  where
    outcome :
        (out : Out)
        → Refines block base
            (elim out [
              | done s ↦ ok tt (say s a)
              | fatal s ↦ hang (say s a)
              | undefined ↦ fault
              | out_of_fuel ↦ out_of_fuel
            ])
            (elim out [
              | done s ↦ serial_puts reads (uart block base) s m
              | fatal s ↦ and_then (serial_puts reads (uart block base) s m) (λ _. hang)
              | undefined ↦ fault
              | out_of_fuel ↦ out_of_fuel
            ])
    outcome (done s) =
        let (end, e, agrees) = serial_puts-Agrees reads block base s a m h g in
        rw e (returns (say s a) end agrees)
    outcome (fatal s) =
        let (end, e, agrees) = serial_puts-Agrees reads block base s a m h g in
        rw e (hangs (say s a) end agrees)
    outcome undefined = faults
    outcome out_of_fuel = starves
