-- ===== src/Loader/Preinits.antt =====
-- `do_phys_pwdown` and `ipq806x_rb3011_preinits` of src/loader.c. The block under `if(0)` is dead.
-- `reads` is the fuel of the timer's waiting loops.
pub mod Finishes
use qcom_ipq_aux_loader.Base.{ℕ, zero, suc, ◌+◌, [], ◌∷◌, bit_or, codes, ◌==◌, if◌then◌else◌}
use qcom_ipq_aux_loader.Machine.Run.{M, ◌>>=◌, ◌>>◌, ok, pure}
use qcom_ipq_aux_loader.Machine.Console.{print}
use qcom_ipq_aux_loader.Printf.Format.{word}
use qcom_ipq_aux_loader.Drivers.Cpu.{ipq806x}
use qcom_ipq_aux_loader.Drivers.Timer.{timer_init, udelay, mdelay}
use qcom_ipq_aux_loader.Drivers.Gpio.{
  gpio_tlmm_config, gpio_set_value, gpio_input, gpio_output, gpio_out_low, gpio_no_pull,
  gpio_pull_down, gpio_8ma, gpio_16ma, gpio_oe_disable, gpio_oe_enable,
}
use qcom_ipq_aux_loader.Drivers.Mdio.{ipq_phy_read, ipq_phy_write}

abbrev pub nss_gmac0_base : ℕ
nss_gmac0_base = 0x3700_0000

abbrev pub nss_gmac1_base : ℕ
nss_gmac1_base = 0x3720_0000

abbrev pub gpio_mdio1 : ℕ
gpio_mdio1 = 10

abbrev pub gpio_mdc1 : ℕ
gpio_mdc1 = 11

abbrev pub gpio_sw0_reset : ℕ
gpio_sw0_reset = 16

abbrev pub gpio_sw1_reset : ℕ
gpio_sw1_reset = 17

abbrev pub gpio_user_led : ℕ
gpio_user_led = 33

abbrev pub gpio_lcd_power : ℕ
gpio_lcd_power = 48

abbrev pub mii_bmcr : ℕ
mii_bmcr = 0

abbrev pub mii_physid1 : ℕ
mii_physid1 = 2

abbrev pub bmcr_pdown : ℕ
bmcr_pdown = 0x800

abbrev pub set_reg_base : ℕ → M (Unit {0})
set_reg_base a m = ok tt (record m { mdio_reg_base = a })

unfoldable pub power_down : ℕ → ℕ → M (Unit {0})
power_down reads a = do
  val ← ipq_phy_read reads a mii_bmcr
  ipq_phy_write reads a mii_bmcr (bit_or val bmcr_pdown) >>= λ _. pure tt

unfoldable pub not_ready : ℕ → ℕ → M (Unit {0})
not_ready mdio_num a = do
  print (codes "Phy %d:%d is NOT READY !!!\n") (word mdio_num ∷ word a ∷ [])
  gpio_set_value ipq806x gpio_lcd_power 1

-- `while(limiter++ < 100)`, with `left` rounds left, and the test behind it.
unfoldable pub wait_phy : ℕ → ℕ → ℕ → ℕ → M (Unit {0})
wait_phy reads mdio_num a zero = not_ready mdio_num a
wait_phy reads mdio_num a (suc left) = do
  val ← ipq_phy_read reads a mii_physid1
  let again = udelay reads 1000 >> wait_phy reads mdio_num a left
  if val == 0x4d then power_down reads a else again

-- `for(a = 0; a <= 4; a++)`, with `left` rounds left.
unfoldable pub each_phy : ℕ → ℕ → ℕ → ℕ → M (Unit {0})
each_phy reads mdio_num a zero = pure tt
each_phy reads mdio_num a (suc left) = do
  wait_phy reads mdio_num a 100
  each_phy reads mdio_num (a + 1) left

unfoldable pub do_phys_pwdown : ℕ → ℕ → M (Unit {0})
do_phys_pwdown reads mdio_num = do
  set_reg_base nss_gmac0_base
  if mdio_num == 1 then set_reg_base nss_gmac1_base else pure tt
  each_phy reads mdio_num 0 5

-- What is done before the transceivers are looked for: pins, and a reset of the switches.
unfoldable pub reset_switches : ℕ → M (Unit {0})
reset_switches reads = do
  print (codes "Doing preinits for Mikrotik RB3011\n") []
  timer_init
  gpio_tlmm_config ipq806x gpio_lcd_power 0 gpio_out_low gpio_pull_down gpio_16ma gpio_oe_enable
  gpio_tlmm_config ipq806x gpio_user_led 0 gpio_out_low gpio_pull_down gpio_16ma gpio_oe_enable
  gpio_tlmm_config ipq806x gpio_mdio1 5 gpio_input gpio_no_pull gpio_8ma gpio_oe_disable
  gpio_tlmm_config ipq806x gpio_mdc1 6 gpio_output gpio_no_pull gpio_8ma gpio_oe_enable
  gpio_tlmm_config ipq806x gpio_sw0_reset 0 gpio_output gpio_pull_down gpio_16ma gpio_oe_enable
  gpio_tlmm_config ipq806x gpio_sw1_reset 0 gpio_output gpio_pull_down gpio_16ma gpio_oe_enable
  gpio_set_value ipq806x gpio_lcd_power 0
  gpio_set_value ipq806x gpio_sw0_reset 0
  gpio_set_value ipq806x gpio_sw1_reset 0
  mdelay reads 20
  gpio_set_value ipq806x gpio_sw0_reset 1
  gpio_set_value ipq806x gpio_sw1_reset 1
  mdelay reads 20

unfoldable pub ipq806x_rb3011_preinits : ℕ → M (Unit {0})
ipq806x_rb3011_preinits reads = do
  reset_switches reads
  do_phys_pwdown reads 0
  do_phys_pwdown reads 1
