-- ===== src/Machine/Touches.antt =====
-- Runs that return and leave the loader's globals alone.
use qcom_ipq_aux_loader.Base.{ℕ, List, ◌≡◌, true, All}
use qcom_ipq_aux_loader.Machine.Memory.{Memory}
use qcom_ipq_aux_loader.Machine.Run.{Event, Machine, M, Run, ok, and_then}
use qcom_ipq_aux_loader.Machine.Console.{print}
use qcom_ipq_aux_loader.Machine.Console.Says.{print-Says}
use qcom_ipq_aux_loader.Printf.Format.{Arg}
use qcom_ipq_aux_loader.Printf.Format.Typed.{IsWord, typed}

-- What may change.
pub record Touched : Type 0 where
  pub trace : List Event
  pub memory : Memory
  pub control : ℕ
  pub start : ℕ
  pub size : ℕ

abbrev pub touched : Touched → Machine → Machine
touched t m = record m {
  trace = t.trace;
  memory = t.memory;
  control = t.control;
  bi_dram_0_start = t.start;
  bi_dram_0_size = t.size;
}

abbrev pub Touches : {A : Type 0} → Machine → Run A → Type 0
Touches {A} m r = (a : A) × (t : Touched) × (r ≡ ok a (touched t m))

pub Touches-then :
    {A B : Type 0} (r : Run A) (k : A → M B) (m : Machine)
    → Touches m r
    → ((a : A) (t : Touched) → Touches m (k a (touched t m)))
    → Touches m (and_then r k)
Touches-then r k m (a, t, e) rest = let (b, u, f) = rest a t in (b, u, rw e f)

pub print-Touches :
    (fmt : List ℕ) (args : List Arg)
    → typed fmt args ≡ true
    → All IsWord args
    → (m : Machine) (t : Touched) → Touches m (print fmt args (touched t m))
print-Touches fmt args fits words m t =
    let (s, e) = print-Says fmt args fits words (touched t m) in (tt, _, e)
