-- ===== src/Loader/WritesBack.antt =====
-- What src/loader.c does to the data cache between the copy of a legacy kernel and its call.
use qcom_ipq_aux_loader.Base.{ℕ, ◌≡◌, List, ◌∷◌, ◌++◌}
use qcom_ipq_aux_loader.Base.Digits.{bit}
use qcom_ipq_aux_loader.Machine.Run.{Event, jump, mcr, sctlr, dccisw, dcisw, Machine, Run, hang}
use qcom_ipq_aux_loader.Drivers.Cpu.{Cpu}
use qcom_ipq_aux_loader.Drivers.Watchdog.Sequence.{reset_events}
use qcom_ipq_aux_loader.Cache.Levels.{Covers}

-- The kernel is called with the data cache off. Before it is switched off each line is cleaned, and
-- behind that each line is invalidated.
pub record WritesBack (cpu : Cpu) (ids : ℕ) (size : ℕ → ℕ) (m : Machine) (r : Run (Unit {0}))
    : Type 0 where
  pub last : List Event
  pub dropped : List Event
  pub written : List Event
  pub first : List Event
  pub cr : ℕ
  pub ends :
      r
      ≡ hang (record m {
        trace =
            reset_events cpu
            ++ jump m.kernel_entry m.kernel_p0 m.kernel_p1 m.kernel_p2
              ∷ (last ++ (dropped ++ mcr sctlr cr ∷ (written ++ first)));
        control = cr;
      })
  pub cleaned : Covers dccisw ids size 0 7 written
  pub invalidated : Covers dcisw ids size 0 7 dropped
  pub dcache_off : bit 2 cr ≡ 0
