-- ===== src/Drivers/Gpio/Fields.antt =====
-- The words that src/gpio.c writes, as numbers made of fields.
use qcom_ipq_aux_loader.Base.{ℕ, ◌+◌, ◌-◌, ◌*◌, ◌/◌, ◌%◌, ◌^◌, ◌<◌, ◌≡◌, bit_and, shl32, arith}
use qcom_ipq_aux_loader.Base.Bits.{
  or_field, zero-bit_or, bit_or-zero, bit_and_digit, bit_or_digit, bit_and_low,
}
use qcom_ipq_aux_loader.Drivers.Gpio.{config_word, with_output}

-- For field values in range, the configuration word is the pull in bits 0-1, the function in bits
-- 2-5, the drive strength in bits 6-8 and the output enable in bit 9.
pub config_word_fields :
    (func pull drvstr oe : ℕ)
    → func < 16
    → pull < 4
    → drvstr < 8
    → oe < 2
    → config_word func pull drvstr oe ≡ pull + 4 * func + 64 * drvstr + 512 * oe
unfolding config_word
config_word_fields func pull drvstr oe a b c d =
    let f : shl32 func 2 ≡ func * 2 ^ 2 = omega arith in
    let s : shl32 drvstr 6 ≡ drvstr * 2 ^ 6 = omega arith in
    let o : shl32 oe 9 ≡ oe * 2 ^ 9 = omega arith in
    let first = or_field 2 func pull b (omega arith) in
    let second = or_field 6 drvstr (pull + func * 2 ^ 2) (omega arith) (omega arith) in
    let third = or_field 9 oe (pull + func * 2 ^ 2 + drvstr * 2 ^ 6) (omega arith) (omega arith) in
    rw (f, s, o, zero-bit_or, first, second, third) (omega arith)

clear_bit_1 : (val : ℕ) → val < 2 ^ 32 → bit_and val 0xffff_fffd ≡ val - 2 * (val / 2 % 2)
clear_bit_1 val h = omega (
  arith,
  bit_and_digit val 0xffff_fffd,
  bit_and_digit (val / 2) 0x7fff_fffe,
  bit_and_low 30 (val / 2 / 2),
)

-- Setting an output to 0 or 1 replaces bit 1 of the register's word and leaves the others.
pub with_output_lem :
    (val out : ℕ) → val < 2 ^ 32 → out < 2 → with_output val out ≡ val - 2 * (val / 2 % 2) + 2 * out
unfolding with_output
with_output_lem val out h b =
    let q = val / 4 in
    let shifted : shl32 out 1 ≡ 2 * out = omega arith in
    let cleared : bit_and val 0xffff_fffd ≡ 4 * q + val % 2 = omega (arith, clear_bit_1 val h) in
    let half : (4 * q + val % 2) / 2 ≡ 2 * q = omega arith in
    let half' : 2 * out / 2 ≡ out = omega arith in
    let quarter : 2 * q / 2 ≡ q = omega arith in
    let none : out / 2 ≡ 0 = omega arith in
    let low = rw (half, half') at (bit_or_digit (4 * q + val % 2) (2 * out)) in
    let high = rw (quarter, none, bit_or-zero) at (bit_or_digit (2 * q) out) in
    rw (shifted, cleared, low, high) (omega arith)
