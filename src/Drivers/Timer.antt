-- ===== src/Drivers/Timer.antt =====
-- src/timer.c, on the IPQ806X alone. The waiting loop is given a number of reads of the counter.
pub mod Elapsed
use qcom_ipq_aux_loader.Base.{
  ℕ, zero, suc, ◌+◌, ◌-◌, ◌*◌, ◌/◌, ◌%◌, ◌^◌, u32, add32, sub32, ltb, if◌then◌else◌,
}
use qcom_ipq_aux_loader.Machine.Run.{M, Run, out_of_fuel, ◌>>=◌, ◌>>◌, pure, writel, readl}

abbrev pub gpt_freq_khz : ℕ
gpt_freq_khz = 32

abbrev pub gpt_freq : ℕ
gpt_freq = gpt_freq_khz * 1000

abbrev pub gpt_count_val : ℕ
gpt_count_val = 0x0200_A000 + 0x04 + 0x4

abbrev pub gpt_enable : ℕ
gpt_enable = 0x0200_A000 + 0x04 + 0x8

unfoldable pub timer_init : M (Unit {0})
timer_init = do writel 0 gpt_enable; writel 1 gpt_enable

-- What a reading `now` adds to `runcount` after the reading `last`.
unfoldable pub advance : ℕ → ℕ → ℕ → ℕ
advance runcount last now =
    if ltb now last
    then add32 runcount (add32 (sub32 gpt_freq last) now)
    else add32 runcount (sub32 now last)

-- `do { … } while (runcount < val);`
unfoldable pub wait_count : ℕ → ℕ → ℕ → ℕ → M (Unit {0})
wait_count zero val runcount last = λ m. out_of_fuel
wait_count (suc reads) val runcount last = do
  now ← readl gpt_count_val
  let runcount' = advance runcount last now
  let again = wait_count reads val runcount' now
  if ltb runcount' val then again else pure tt

-- Microseconds in ticks of the counter, as the code converts them.
unfoldable pub in_ticks : ℕ → ℕ
in_ticks usec = sub32 (add32 usec gpt_freq_khz) 1 / gpt_freq_khz

unfoldable pub udelay : ℕ → ℕ → M (Unit {0})
udelay reads usec = do
  last ← readl gpt_count_val
  wait_count reads (add32 (in_ticks usec) last) last last

-- `while (msec--) udelay(1000);`
unfoldable pub mdelay : ℕ → ℕ → M (Unit {0})
mdelay reads zero = pure tt
mdelay reads (suc msec) = udelay reads 1000 >> mdelay reads msec
