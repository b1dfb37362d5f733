-- ===== src/Drivers/Cpu.antt =====
-- CPU_TYPE of the Makefile: which of CONFIG_IPQ4XXX and CONFIG_IPQ806X is defined.
pub data Cpu : Type 0 where
  ipq4xxx ipq806x : Cpu
