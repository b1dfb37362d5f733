-- ===== src/Drivers/Mdio.antt =====
-- src/mdio.c, on the IPQ806X alone.
pub mod Transacts
pub mod Polling
use qcom_ipq_aux_loader.Base.{
  ℕ, zero, suc, ◌+◌, ◌-◌, ◌*◌, ◌%◌, ◌^◌, bit_and, bit_or, shl32, add32, u32, ◌==◌, if◌then◌else◌,
}
use qcom_ipq_aux_loader.Machine.Run.{Machine, M, ◌>>=◌, ◌>>◌, ok, pure, writel, readl}
use qcom_ipq_aux_loader.Drivers.Timer.{udelay}

abbrev pub mii_busy : ℕ
mii_busy = 1

abbrev pub mii_write : ℕ
mii_write = 2

abbrev pub mii_clkrange_250_300m : ℕ
mii_clkrange_250_300m = 0x14

abbrev pub mii_data_reg_addr : ℕ
mii_data_reg_addr = 0x14

abbrev pub mii_addr_reg_addr : ℕ
mii_addr_reg_addr = 0x10

-- `0x1F << 11` and `0x1F << 6`
abbrev pub mii_addrmsk : ℕ
mii_addrmsk = 0x1f * 2 ^ 11

abbrev pub mii_regmsk : ℕ
mii_regmsk = 0x1f * 2 ^ 6

-- -1 as an `unsigned int`
abbrev pub minus_one : ℕ
minus_one = 2 ^ 32 - 1

unfoldable pub read_miiaddr : ℕ → ℕ → ℕ
read_miiaddr phy_addr reg_offset =
    bit_or
      (bit_or (bit_and (shl32 phy_addr 11) mii_addrmsk) (bit_and (shl32 reg_offset 6) mii_regmsk))
      (bit_or mii_busy mii_clkrange_250_300m)

unfoldable pub write_miiaddr : ℕ → ℕ → ℕ
write_miiaddr phy_addr reg_offset =
    bit_or
      (bit_or
        (bit_or (bit_and (shl32 phy_addr 11) mii_addrmsk) (bit_and (shl32 reg_offset 6) mii_regmsk))
        mii_write)
      (bit_or mii_busy mii_clkrange_250_300m)

-- A field of the machine, as a C global is read.
abbrev pub get_reg_base : M ℕ
get_reg_base m = ok m.mdio_reg_base m

-- `while(limiter++ < 10)`: with `left` rounds left, wait for the busy bit and then do `ready`.
unfoldable pub poll : ℕ → ℕ → M ℕ → ℕ → M ℕ
poll reads reg_base ready zero = pure minus_one
poll reads reg_base ready (suc left) = do
  status ← readl (add32 reg_base mii_addr_reg_addr)
  let again = udelay reads 1000 >> poll reads reg_base ready left
  if bit_and status mii_busy == 0 then ready else again

-- The word read is both returned and stored through `data`, which all callers leave NULL.
unfoldable pub ipq_mdio_read : ℕ → ℕ → ℕ → M ℕ
ipq_mdio_read reads phy_addr reg_offset = do
  reg_base ← get_reg_base
  writel (read_miiaddr phy_addr reg_offset) (add32 reg_base mii_addr_reg_addr)
  udelay reads 10
  poll reads reg_base (readl (add32 reg_base mii_data_reg_addr)) 10

unfoldable pub ipq_mdio_write : ℕ → ℕ → ℕ → ℕ → M ℕ
ipq_mdio_write reads phy_addr reg_offset value = do
  reg_base ← get_reg_base
  writel (value % 2 ^ 16) (add32 reg_base mii_data_reg_addr)
  writel (write_miiaddr phy_addr reg_offset) (add32 reg_base mii_addr_reg_addr)
  udelay reads 10
  poll reads reg_base (pure 0) 10

unfoldable pub ipq_phy_read : ℕ → ℕ → ℕ → M ℕ
unfolding ipq_mdio_read
ipq_phy_read reads addr regnum = ipq_mdio_read reads addr regnum

unfoldable pub ipq_phy_write : ℕ → ℕ → ℕ → ℕ → M ℕ
unfolding ipq_mdio_write
ipq_phy_write reads addr regnum value = ipq_mdio_write reads addr regnum value
