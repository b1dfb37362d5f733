-- ===== src/Drivers/Uart/Transmits.antt =====
-- What `serial_putc` of src/qcom_uart.c does on a UART that becomes ready in time.
use qcom_ipq_aux_loader.Base.{
  ℕ, zero, suc, ◌≡◌, refl, ap, ◌∙◌, List, [], ◌∷◌, Bool, true, false, Bool-cases, inl, inr, bit_and,
  u32, arith, ◌==◌, ◌&&◌, not, if◌then◌else◌,
}
use qcom_ipq_aux_loader.Machine.Run.{Event, wrote, loaded, putc, mcr, jump, Machine, Run, ok}
use qcom_ipq_aux_loader.Drivers.Uart.{
  Block, gsbi, blsp, dm_no_chars_for_tx, dm_cr, dm_sr, dm_tf, dm_isr, sr_txrdy, sr_txemt, tx_ready,
  gcmd_res_tx_rdy_int, wait_for, tx_word, send_word, put_character,
}

-- One of the next `reads` reads of the register has a bit of the mask set.
pub data Eventually (device : List Event → ℕ → ℕ) (a mask : ℕ) : ℕ → List Event → Type 0 where
  now :
      {reads : ℕ} (events : List Event)
      → (bit_and (u32 (device events a)) mask == 0) ≡ false
      → Eventually device a mask (suc reads) events
  later :
      {reads : ℕ} (events : List Event)
      → (bit_and (u32 (device events a)) mask == 0) ≡ true
      → Eventually device a mask reads (loaded a (u32 (device events a)) ∷ events)
      → Eventually device a mask (suc reads) events

-- The transmitter becomes ready in time, whatever went before.
pub record Responds (device : List Event → ℕ → ℕ) (reads : ℕ) (block : Block) (base : ℕ)
    : Type 0 where
  pub empties : (events : List Event) → Eventually device (dm_isr block base) tx_ready reads events
  pub has_space : (events : List Event) → Eventually device (dm_sr block base) sr_txrdy reads events

-- The words written to the FIFO, newest first.
abbrev pub sent : ℕ → List Event → List ℕ
sent tf [] = []
sent tf (wrote a v ∷ events) = if a == tf then v ∷ sent tf events else sent tf events
sent tf (loaded a v ∷ events) = sent tf events
sent tf (putc c ∷ events) = sent tf events
sent tf (mcr r v ∷ events) = sent tf events
sent tf (jump e p q r ∷ events) = sent tf events

-- The words of a text's bytes, newest first, before older words.
abbrev pub words : List ℕ → List ℕ → List ℕ
words [] older = older
words (c ∷ s) older = words s (u32 (tx_word c) ∷ older)

-- Was the status register read last, with space in the FIFO?
abbrev pub has_space : ℕ → List Event → Bool
has_space sr [] = false
has_space sr (wrote a v ∷ events) = false
has_space sr (loaded a v ∷ events) = (a == sr) && not (bit_and v sr_txrdy == 0)
has_space sr (putc c ∷ events) = false
has_space sr (mcr r v ∷ events) = false
has_space sr (jump e p q r ∷ events) = false

-- Every word was written directly behind a status that allowed it.
abbrev pub orderly : ℕ → ℕ → List Event → Bool
orderly tf sr [] = true
orderly tf sr (wrote a v ∷ events) =
    if a == tf then has_space sr events && orderly tf sr events else orderly tf sr events
orderly tf sr (loaded a v ∷ events) = orderly tf sr events
orderly tf sr (putc c ∷ events) = orderly tf sr events
orderly tf sr (mcr r v ∷ events) = orderly tf sr events
orderly tf sr (jump e p q r ∷ events) = orderly tf sr events

-- The FIFO is a register of its own.
chars-apart : (block : Block) (base : ℕ) → (dm_no_chars_for_tx base == dm_tf block base 0) ≡ false
chars-apart blsp base = ground arith
chars-apart gsbi base = ground arith

cr-apart : (block : Block) (base : ℕ) → (dm_cr block base == dm_tf block base 0) ≡ false
cr-apart blsp base = ground arith
cr-apart gsbi base = ground arith

eq_self : (a : ℕ) → (a == a) ≡ true
eq_self a = ground arith

module _ (block : Block) (base : ℕ) where
  -- Later events that have sent nothing.
  record IsSilent (events later : List Event) : Type 0 where
    same : sent (dm_tf block base 0) later ≡ sent (dm_tf block base 0) events
    still :
        orderly (dm_tf block base 0) (dm_sr block base) later
        ≡ orderly (dm_tf block base 0) (dm_sr block base) events

  wait_for-IsSilent :
      (reads a mask : ℕ) (m : Machine)
      → Eventually m.device a mask reads m.trace
      → (events : List Event) × (v : ℕ) × (wait_for reads a mask m
          ≡ ok tt (record m { trace = loaded a v ∷ events }))
        × ((bit_and v mask == 0) ≡ false)
        × IsSilent m.trace events
  unfolding wait_for
  wait_for-IsSilent zero a mask m h = elim h [ ]
  wait_for-IsSilent (suc reads) a mask m (now _ e) =
      (m.trace, u32 (m.device m.trace a), rw e refl, e, record { same = refl; still = refl })
  wait_for-IsSilent (suc reads) a mask m (later _ e rest) =
      let (events, v, f, ready, silent) =
        wait_for-IsSilent reads a mask
          (record m { trace = loaded a (u32 (m.device m.trace a)) ∷ m.trace }) rest in
      (events, v, rw e f, ready, record { same = silent.same; still = silent.still })

  -- A run that returns, has sent one more word, and has kept the order.
  abbrev pub Sends : ℕ → Machine → Run (Unit {0}) → Type 0
  Sends c m r =
      (events : List Event) × (r ≡ ok tt (record m { trace = events }))
      × (sent (dm_tf block base 0) events ≡ u32 (tx_word c) ∷ sent (dm_tf block base 0) m.trace)
      × (orderly (dm_tf block base 0) (dm_sr block base) events
          ≡ orderly (dm_tf block base 0) (dm_sr block base) m.trace)

  send_word-Sends :
      (reads c : ℕ) (m : Machine)
      → ((events : List Event) → Eventually m.device (dm_sr block base) sr_txrdy reads events)
      → Sends c m (send_word reads block base c m)
  unfolding send_word
  send_word-Sends reads c m h =
      let start =
        wrote (dm_cr block base) gcmd_res_tx_rdy_int
        ∷ wrote (dm_no_chars_for_tx base) 1
        ∷ m.trace in
      let (events, v, e, ready, silent) =
        wait_for-IsSilent reads _ _ (record m { trace = start }) (h start) in
      (
        wrote (dm_tf block base 0) (u32 (tx_word c)) ∷ loaded (dm_sr block base) v ∷ events,
        rw e refl,
        rw eq_self (
            ap (λ w. u32 (tx_word c) ∷ w)
              (silent.same ∙ rw (cr-apart block base, chars-apart block base) refl)),
        rw (eq_self, eq_self, ready)
            (silent.still ∙ rw (cr-apart block base, chars-apart block base) refl),
      )

  pub put_character-Sends :
      (reads c : ℕ) (m : Machine)
      → Responds m.device reads block base
      → Sends c m (put_character reads block base c m)
  unfolding put_character
  put_character-Sends reads c m h =
      let status = u32 (m.device m.trace (dm_sr block base)) in
      let trace = loaded (dm_sr block base) status ∷ m.trace in
      elim (Bool-cases (bit_and status sr_txemt == 0)) [
        | inl e ↦
            let (events, v, f, ready, silent) =
              wait_for-IsSilent reads (dm_isr block base) tx_ready (record m { trace = trace })
                (h.empties trace) in
            let (end, g, word, order) =
              send_word-Sends reads c (record m { trace = _ }) h.has_space in
            rw (e, f)
              (end, g, word ∙ ap (λ w. u32 (tx_word c) ∷ w) silent.same, order ∙ silent.still)
        | inr e ↦ rw e (send_word-Sends reads c (record m { trace = trace }) h.has_space)
      ]
