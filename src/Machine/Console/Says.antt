-- ===== src/Machine/Console/Says.antt =====
-- Calls of `printf` whose arguments fit the format, as runs of the machine.
use qcom_ipq_aux_loader.Base.{ℕ, List, [], ◌∷◌, ◌++◌, refl, ap, ◌∙◌, ◌≡◌, true, All}
use qcom_ipq_aux_loader.Machine.Run.{Event, putc, Machine, M, Run, ok, and_then}
use qcom_ipq_aux_loader.Machine.Console.{puts, say, print}
use qcom_ipq_aux_loader.Printf.Format.{Arg}
use qcom_ipq_aux_loader.Printf.Format.Typed.{IsWord, typed}
use qcom_ipq_aux_loader.Printf.Format.Typed.Returns.{printf-Done}

pub puts-append :
    (s t : List ℕ) (events : List Event) → puts (s ++ t) events ≡ puts t (puts s events)
puts-append [] t events = refl
puts-append (c ∷ s) t events = puts-append s t (putc c ∷ events)

pub say-append : (s t : List ℕ) (m : Machine) → say t (say s m) ≡ say (s ++ t) m
say-append s t m = rw (puts-append s t m.trace) refl

-- A run that returns `a` and has only printed.
abbrev pub Says : {A : Type 0} → A → Machine → Run A → Type 0
Says a m r = (s : List ℕ) × (r ≡ ok a (say s m))

pub print-Says :
    (fmt : List ℕ) (args : List Arg)
    → typed fmt args ≡ true
    → All IsWord args
    → (m : Machine) → Says tt m (print fmt args m)
unfolding print
print-Says fmt args fits words m =
    let (s, e) = printf-Done fmt args fits words in (s, rw (e, print) refl)

-- Printing first, and then something that only prints.
pub print-then :
    {A : Type 0} (fmt : List ℕ) (args : List Arg) (k : Unit {0} → M A) (a : A) (m : Machine)
    → typed fmt args ≡ true
    → All IsWord args
    → ((s : List ℕ) → Says a (say s m) (k tt (say s m)))
    → Says a m (and_then (print fmt args m) k)
print-then fmt args k a m fits words rest =
    let (s, e) = print-Says fmt args fits words m in
    let (t, f) = rest s in (s ++ t, rw e (f ∙ ap (ok a) (say-append s t m)))
