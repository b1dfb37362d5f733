-- ===== src/Machine/Console.antt =====
-- `printf` as a run on the machine: each byte that it gives to `serial_putc` is an event.
pub mod Says
use qcom_ipq_aux_loader.Base.{ℕ, List, [], ◌∷◌}
use qcom_ipq_aux_loader.Machine.Run.{Event, putc, Machine, M, ok, hang, fault, out_of_fuel}
use qcom_ipq_aux_loader.Printf.Format.{Arg, done, fatal, undefined, out_of_fuel, printf}

-- The events of some bytes, newest first, before older events.
abbrev pub puts : List ℕ → List Event → List Event
puts [] events = events
puts (c ∷ s) events = puts s (putc c ∷ events)

abbrev pub say : List ℕ → Machine → Machine
say s m = record m { trace = puts s m.trace }

unfoldable pub print : List ℕ → List Arg → M (Unit {0})
print fmt args m = elim (printf fmt args) [
  | done s ↦ ok tt (say s m)
  | fatal s ↦ hang (say s m)
  | undefined ↦ fault
  | out_of_fuel ↦ out_of_fuel
]
