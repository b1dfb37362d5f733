-- ===== src/Drivers/Gpio/Pins.antt =====
-- What src/gpio.c does with the registers of a pin.
use Prim.Native.Nat.{max}
use qcom_ipq_aux_loader.Base.{
  ℕ, ◌+◌, ◌-◌, ◌*◌, ◌/◌, ◌%◌, ◌^◌, ◌<◌, ◌≡◌, refl, List, [], ◌∷◌, ◌++◌, u32, bit_or, shl32, arith,
  Bool-cases, inl, inr, ◌==◌, if◌then◌else◌,
}
use qcom_ipq_aux_loader.Base.Bits.{bit_or-zero, bit_or_digit}
use qcom_ipq_aux_loader.Machine.Run.{Event, wrote, loaded, Machine, ok}
use qcom_ipq_aux_loader.Drivers.Cpu.{Cpu}
use qcom_ipq_aux_loader.Drivers.Gpio.{
  gpio_config_addr, gpio_in_out_addr, config_word, with_output, preset_output, gpio_tlmm_config,
  gpio_set_value,
}
use qcom_ipq_aux_loader.Drivers.Gpio.Fields.{config_word_fields, with_output_lem}

-- Bit 1 of a word.
abbrev pub output_bit : ℕ → ℕ
output_bit v = v / 2 % 2

-- A word with bit 1 replaced.
abbrev pub with_bit_1 : ℕ → ℕ → ℕ
with_bit_1 v out = v - 2 * output_bit v + 2 * out

-- What a pin's output register answers.
abbrev pub output_of : Machine → Cpu → ℕ → ℕ
output_of m cpu gpio = u32 (m.device m.trace (gpio_in_out_addr cpu gpio))

-- For an output of 0 or 1, `gpio_set_value` loads the pin's output register once and stores the
-- word that it answered, with bit 1 replaced and the others kept. Of the machine only the trace
-- changes.
pub gpio_set_value_lem :
    (cpu : Cpu) (gpio out : ℕ) (m : Machine)
    → out < 2
    → gpio_set_value cpu gpio out m
      ≡ ok tt (record m {
        trace =
            wrote (gpio_in_out_addr cpu gpio) (with_bit_1 (output_of m cpu gpio) out)
            ∷ loaded (gpio_in_out_addr cpu gpio) (output_of m cpu gpio)
            ∷ m.trace;
      })
unfolding gpio_set_value
gpio_set_value_lem cpu gpio out m h =
    let v = output_of m cpu gpio in
    let word : u32 (with_output v out) ≡ with_bit_1 v out = omega (arith, with_output_lem v out) in
    rw word refl

ored :
    (v out : ℕ)
    → v < 2 ^ 32
    → out < 2
    → u32 (bit_or v (shl32 out 1)) ≡ with_bit_1 v (max (output_bit v) out)
ored v out h b =
    let shifted : shl32 out 1 ≡ 2 * out = omega arith in
    let half : 2 * out / 2 ≡ out = omega arith in
    let none : out / 2 ≡ 0 = omega arith in
    let low = rw half at (bit_or_digit v (2 * out)) in
    let high = rw (none, bit_or-zero) at (bit_or_digit (v / 2) out) in
    rw (shifted, low, high) (omega arith)

-- The events for a pin of function 0, newest first.
abbrev pub preset_events : Cpu → ℕ → ℕ → ℕ → List Event
preset_events cpu gpio v out =
    wrote (gpio_in_out_addr cpu gpio) (with_bit_1 v (max (output_bit v) out))
    ∷ loaded (gpio_in_out_addr cpu gpio) v
    ∷ []

-- The machine behind the store of a pin's configuration.
abbrev pub configured : Cpu → ℕ → ℕ → ℕ → ℕ → ℕ → Machine → Machine
configured cpu gpio func pull drvstr oe m = record m {
  trace = wrote (gpio_config_addr cpu gpio) (pull + 4 * func + 64 * drvstr + 512 * oe) ∷ m.trace;
}

-- For arguments in range `gpio_tlmm_config` stores the pin's configuration: the pull in bits 0-1,
-- the function in bits 2-5, the drive strength in bits 6-8 and the output enable in bit 9. For
-- function 0 it then loads the output register and stores the word with bit 1 set if it was set or
-- `out` is 1, so that an output that is set stays set; for other functions that is all. Of the
-- machine only the trace changes.
pub gpio_tlmm_config_lem :
    (cpu : Cpu) (gpio func out pull drvstr oe : ℕ) (m : Machine)
    → func < 16
    → out < 2
    → pull < 4
    → drvstr < 8
    → oe < 2
    → gpio_tlmm_config cpu gpio func out pull drvstr oe m
      ≡ ok tt (record m {
        trace =
            (if func == 0
              then preset_events cpu gpio
                  (output_of (configured cpu gpio func pull drvstr oe m) cpu gpio)
                  out
              else [])
            ++ (configured cpu gpio func pull drvstr oe m).trace;
      })
unfolding gpio_tlmm_config preset_output
gpio_tlmm_config_lem cpu gpio func out pull drvstr oe m f o p d e =
    let word : u32 (config_word func pull drvstr oe) ≡ pull + 4 * func + 64 * drvstr + 512 * oe =
      omega (arith, config_word_fields func pull drvstr oe) in
    let v = output_of (configured cpu gpio func pull drvstr oe m) cpu gpio in
    elim (Bool-cases (func == 0)) [
      | inl z ↦ rw (z, word, ored v out (omega arith) o) refl
      | inr z ↦ rw (z, word) refl
    ]
