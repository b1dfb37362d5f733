-- ===== src/Drivers/Watchdog/Sequence.antt =====
-- What `watchdog_setup` and `reset_cpu` leave in the watchdog's registers.
use qcom_ipq_aux_loader.Base.{
  ℕ, ◌*◌, ◌^◌, ◌<◌, ◌≡◌, refl, List, [], ◌∷◌, ◌++◌, Option, some, none, u32, arith, ◌==◌,
  if◌then◌else◌,
}
use qcom_ipq_aux_loader.Machine.Run.{Event, wrote, loaded, putc, mcr, jump, Machine, ok, hang}
use qcom_ipq_aux_loader.Drivers.Cpu.{Cpu, ipq4xxx, ipq806x}
use qcom_ipq_aux_loader.Drivers.Watchdog.{wdt, ticks, watchdog_setup, reset_cpu}

-- The value that was last written to a device register.
abbrev pub last_written : ℕ → List Event → Option ℕ
last_written a [] = none
last_written a (wrote b v ∷ events) = if b == a then some v else last_written a events
last_written a (loaded b v ∷ events) = last_written a events
last_written a (putc c ∷ events) = last_written a events
last_written a (mcr r v ∷ events) = last_written a events
last_written a (jump e p q r ∷ events) = last_written a events

-- Enabled and cleared, and both times are `n` ticks.
pub record IsArmed (cpu : Cpu) (n : ℕ) (events : List Event) : Type 0 where
  pub en : last_written (wdt cpu).en events ≡ some 1
  pub rst : last_written (wdt cpu).rst events ≡ some 1
  pub bark : last_written (wdt cpu).bark_time events ≡ some n
  pub bite : last_written (wdt cpu).bite_time events ≡ some n

-- The stores behind the one that stops the watchdog.
abbrev pub setup_events : Cpu → ℕ → List Event
setup_events ipq4xxx period =
    wrote (wdt ipq4xxx).en 1
    ∷ wrote (wdt ipq4xxx).bite_time (u32 (period * 65536))
    ∷ wrote (wdt ipq4xxx).bark_time (u32 (period * 65536))
    ∷ wrote (wdt ipq4xxx).rst 1
    ∷ []
setup_events ipq806x period =
    wrote 0x0090_3820 1
    ∷ wrote (wdt ipq806x).en 1
    ∷ wrote (wdt ipq806x).bite_time (u32 (period * 32768))
    ∷ wrote (wdt ipq806x).bark_time (u32 (period * 32768))
    ∷ wrote (wdt ipq806x).rst 1
    ∷ []

pub setup_lem :
    (cpu : Cpu) (period : ℕ) (m : Machine)
    → watchdog_setup cpu period m
      ≡ ok tt (record m { trace = setup_events cpu period ++ wrote (wdt cpu).en 0 ∷ m.trace })
unfolding watchdog_setup
setup_lem ipq4xxx period m = refl
setup_lem ipq806x period m = refl

pub setup_events-IsArmed :
    (cpu : Cpu) (period : ℕ) (events : List Event)
    → period * ticks cpu < 2 ^ 32
    → IsArmed cpu (period * ticks cpu) (setup_events cpu period ++ events)
setup_events-IsArmed ipq4xxx period events h = record {
  en = refl;
  rst = refl;
  bark = ground arith;
  bite = ground arith;
}
setup_events-IsArmed ipq806x period events h = record {
  en = refl;
  rst = refl;
  bark = ground arith;
  bite = ground arith;
}

-- When the period's ticks fit a word, `watchdog_setup` returns with the watchdog cleared and
-- enabled and both its times set to the period, changes nothing but the trace, and its first
-- store stops the watchdog.
pub setup-IsArmed :
    (cpu : Cpu) (period : ℕ) (m : Machine)
    → period * ticks cpu < 2 ^ 32
    → (events : List Event) × (watchdog_setup cpu period m
        ≡ ok tt (record m { trace = events ++ wrote (wdt cpu).en 0 ∷ m.trace }))
      × IsArmed cpu (period * ticks cpu) (events ++ wrote (wdt cpu).en 0 ∷ m.trace)
setup-IsArmed cpu period m h =
    (setup_events cpu period, setup_lem cpu period m, setup_events-IsArmed cpu period _ h)

-- The stores of a reset.
abbrev pub reset_events : Cpu → List Event
reset_events ipq4xxx = wrote 0x004A_B000 0 ∷ []
reset_events ipq806x =
    wrote 0x0090_3820 1
    ∷ wrote (wdt ipq806x).en 1
    ∷ wrote (wdt ipq806x).bite_time 0x31F3
    ∷ wrote (wdt ipq806x).bark_time (5 * 0x31F3)
    ∷ wrote (wdt ipq806x).rst 1
    ∷ wrote (wdt ipq806x).en 0
    ∷ []

pub reset_cpu_lem :
    (cpu : Cpu) (m : Machine)
    → reset_cpu cpu m ≡ hang (record m { trace = reset_events cpu ++ m.trace })
unfolding reset_cpu
reset_cpu_lem ipq4xxx m = refl
reset_cpu_lem ipq806x m = refl
