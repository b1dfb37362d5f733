-- ===== src/Drivers/Gpio.antt =====
-- src/gpio.c, with the addresses of src/include/iomap.h.
pub mod Fields
pub mod Pins
use qcom_ipq_aux_loader.Base.{
  ℕ, ◌+◌, ◌*◌, ◌%◌, ◌^◌, bit_and, bit_or, shl32, u32, ◌==◌, if◌then◌else◌,
}
use qcom_ipq_aux_loader.Machine.Run.{M, ◌>>=◌, ◌>>◌, pure, writel, readl}
use qcom_ipq_aux_loader.Drivers.Cpu.{Cpu, ipq4xxx, ipq806x}

-- src/include/gpio.h: the values of the arguments, as far as they are used.
abbrev pub gpio_input : ℕ
gpio_input = 0

abbrev pub gpio_output : ℕ
gpio_output = 1

abbrev pub gpio_out_low : ℕ
gpio_out_low = 0

abbrev pub gpio_no_pull : ℕ
gpio_no_pull = 0

abbrev pub gpio_pull_down : ℕ
gpio_pull_down = 1

abbrev pub gpio_8ma : ℕ
gpio_8ma = 3

abbrev pub gpio_16ma : ℕ
gpio_16ma = 7

abbrev pub gpio_oe_disable : ℕ
gpio_oe_disable = 0

abbrev pub gpio_oe_enable : ℕ
gpio_oe_enable = 1

abbrev pub gpio_config_addr : Cpu → ℕ → ℕ
gpio_config_addr ipq4xxx x = u32 (0x0100_0000 + x * 0x1000)
gpio_config_addr ipq806x x = u32 (0x0080_0000 + 0x1000 + x * 0x10)

abbrev pub gpio_in_out_addr : Cpu → ℕ → ℕ
gpio_in_out_addr ipq4xxx x = u32 (0x0100_0000 + 0x4 + x * 0x1000)
gpio_in_out_addr ipq806x x = u32 (0x0080_0000 + 0x1004 + x * 0x10)

-- The word that configures a pin.
unfoldable pub config_word : ℕ → ℕ → ℕ → ℕ → ℕ
config_word func pull drvstr oe =
    bit_or (bit_or (bit_or (bit_or 0 pull) (shl32 func 2)) (shl32 drvstr 6)) (shl32 oe 9)

-- What is done for a pin of function 0.
unfoldable pub preset_output : Cpu → ℕ → ℕ → M (Unit {0})
preset_output cpu gpio out = do
  val ← readl (gpio_in_out_addr cpu gpio)
  writel (bit_or val (shl32 out 1)) (gpio_in_out_addr cpu gpio)

unfoldable pub gpio_tlmm_config : Cpu → ℕ → ℕ → ℕ → ℕ → ℕ → ℕ → M (Unit {0})
gpio_tlmm_config cpu gpio func out pull drvstr oe = do
  writel (config_word func pull drvstr oe) (gpio_config_addr cpu gpio)
  if func == 0 then preset_output cpu gpio out else pure tt

-- The new contents of an output register.
unfoldable pub with_output : ℕ → ℕ → ℕ
with_output val out = bit_or (bit_and val 0xffff_fffd) (shl32 out 1)

unfoldable pub gpio_set_value : Cpu → ℕ → ℕ → M (Unit {0})
gpio_set_value cpu gpio out = do
  val ← readl (gpio_in_out_addr cpu gpio)
  writel (with_output val out) (gpio_in_out_addr cpu gpio)

unfoldable pub gpio_get_value : Cpu → ℕ → M ℕ
gpio_get_value cpu gpio = do val ← readl (gpio_in_out_addr cpu gpio); pure (bit_and val 0xffff_fffd)
