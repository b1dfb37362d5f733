-- ===== src/Machine/Loads.antt =====
-- Loads of device registers, oldest first, put into a trace.
use qcom_ipq_aux_loader.Base.{ℕ, ◌≡◌, refl, List, [], ◌∷◌, ◌++◌}
use qcom_ipq_aux_loader.Machine.Run.{Event, loaded}
use qcom_ipq_aux_loader.Machine.Jumps.{jumps}

-- Each load is the register's address and what it answered.
abbrev pub log : List (ℕ × ℕ) → List Event → List Event
log [] events = events
log ((a, v) ∷ loads) events = log loads (loaded a v ∷ events)

pub log-append :
    (first second : List (ℕ × ℕ)) (events : List Event)
    → log (first ++ second) events ≡ log second (log first events)
log-append [] second events = refl
log-append ((a, v) ∷ first) second events = log-append first second (loaded a v ∷ events)

pub jumps-log :
    (loads : List (ℕ × ℕ)) (events : List Event) → jumps (log loads events) ≡ jumps events
jumps-log [] events = refl
jumps-log ((a, v) ∷ loads) events = jumps-log loads (loaded a v ∷ events)
