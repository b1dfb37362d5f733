-- ===== src/Drivers/Watchdog.antt =====
-- src/watchdog.c.
pub mod Sequence
use qcom_ipq_aux_loader.Base.{ℕ, ◌+◌, ◌*◌, ◌%◌, ◌^◌, u32}
use qcom_ipq_aux_loader.Machine.Run.{M, ◌>>=◌, ◌>>◌, writel, for_ever}
use qcom_ipq_aux_loader.Drivers.Cpu.{Cpu, ipq4xxx, ipq806x}

abbrev pub wdt_base : ℕ
wdt_base = 0xB01_7000

abbrev pub gcnt_pshold : ℕ
gcnt_pshold = 0x004A_B000

abbrev pub msm_tmr_base : ℕ
msm_tmr_base = 0x0200_A000

-- The registers of the watchdog.
pub record Wdt : Type 0 where
  pub rst : ℕ
  pub en : ℕ
  pub bark_time : ℕ
  pub bite_time : ℕ

abbrev pub wdt : Cpu → Wdt
wdt ipq4xxx = record {
  rst = wdt_base + 0x4;
  en = wdt_base + 0x8;
  bark_time = wdt_base + 0x10;
  bite_time = wdt_base + 0x14;
}
wdt ipq806x = record {
  rst = msm_tmr_base + 0x38;
  en = msm_tmr_base + 0x40;
  bark_time = msm_tmr_base + 0x4c;
  bite_time = msm_tmr_base + 0x5c;
}

-- APCS_WDT0_CPU0_WDOG_EXPIRED_ENABLE
abbrev pub wdog_expired_enable : ℕ
wdog_expired_enable = 0x0090_0000 + 0x3820

-- Ticks of the watchdog clock in a second.
abbrev pub ticks : Cpu → ℕ
ticks ipq4xxx = 65536
ticks ipq806x = 32768

-- `period` is the bit pattern of an `int`.
unfoldable pub watchdog_setup : Cpu → ℕ → M (Unit {0})
watchdog_setup ipq4xxx period = do
  writel 0 (wdt ipq4xxx).en
  writel 1 (wdt ipq4xxx).rst
  writel (period * 65536) (wdt ipq4xxx).bark_time
  writel (period * 65536) (wdt ipq4xxx).bite_time
  writel 1 (wdt ipq4xxx).en
watchdog_setup ipq806x period = do
  writel 0 (wdt ipq806x).en
  writel 1 (wdt ipq806x).rst
  writel (period * 32768) (wdt ipq806x).bark_time
  writel (period * 32768) (wdt ipq806x).bite_time
  writel 1 (wdt ipq806x).en
  writel 1 wdog_expired_enable

abbrev pub reset_wdt_bite_time : ℕ
reset_wdt_bite_time = 0x31F3

abbrev pub reset_wdt_bark_time : ℕ
reset_wdt_bark_time = 5 * reset_wdt_bite_time

unfoldable pub reset_cpu : Cpu → M (Unit {0})
reset_cpu ipq4xxx = do writel 0 gcnt_pshold; for_ever
reset_cpu ipq806x = do
  writel 0 (wdt ipq806x).en
  writel 1 (wdt ipq806x).rst
  writel reset_wdt_bark_time (wdt ipq806x).bark_time
  writel reset_wdt_bite_time (wdt ipq806x).bite_time
  writel 1 (wdt ipq806x).en
  writel 1 wdog_expired_enable
  for_ever

-- WDT_RESETUP_PERIOD
abbrev pub wdt_resetup_period : ℕ
wdt_resetup_period = 10

unfoldable pub watchdog_resetup : Cpu → M (Unit {0})
unfolding watchdog_setup
watchdog_resetup cpu = watchdog_setup cpu wdt_resetup_period
