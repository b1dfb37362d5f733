-- ===== src/Machine/Jumps.antt =====
-- The calls of the kernel in a trace.
use qcom_ipq_aux_loader.Base.{ℕ, suc, ◌≡◌, refl, List, [], ◌∷◌}
use qcom_ipq_aux_loader.Machine.Run.{Event, wrote, loaded, putc, mcr, jump}
use qcom_ipq_aux_loader.Machine.Console.{puts}

abbrev pub jumps : List Event → ℕ
jumps [] = 0
jumps (jump e p q r ∷ events) = suc (jumps events)
jumps (wrote a v ∷ events) = jumps events
jumps (loaded a v ∷ events) = jumps events
jumps (putc c ∷ events) = jumps events
jumps (mcr r v ∷ events) = jumps events

pub jumps-puts : (s : List ℕ) (events : List Event) → jumps (puts s events) ≡ jumps events
jumps-puts [] events = refl
jumps-puts (c ∷ s) events = jumps-puts s (putc c ∷ events)
