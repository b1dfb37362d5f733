-- ===== src/Machine.antt =====
-- The world that the C code acts on: byte-addressed memory, device registers behind `readl` and
-- `writel` (src/include/io.h), the CP15 registers, the globals of the translation units, and a
-- trace of everything that is visible outside, newest first.
pub mod Memory
pub mod Run
pub mod Console
pub mod Jumps
pub mod Loads
pub mod Touches
