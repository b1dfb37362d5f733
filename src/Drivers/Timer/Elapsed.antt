-- ===== src/Drivers/Timer/Elapsed.antt =====
-- The waiting loop of src/timer.c against a counter.
use mathlib.Core.List.{map}
use qcom_ipq_aux_loader.Base.{
  ℕ, zero, suc, ◌+◌, ◌-◌, ◌*◌, ◌%◌, ◌==◌, ==_iff, ◌^◌, ◌≤◌, ◌<◌, ◌≢◌, ◌≡◌, refl, u32, add32, ltb,
  List, [], ◌∷◌, arith, Bool-cases, inl, inr, ltb→le, ltb→lt,
}
use qcom_ipq_aux_loader.Machine.Run.{Event, loaded, Machine, ok}
use qcom_ipq_aux_loader.Machine.Loads.{log}
use qcom_ipq_aux_loader.Drivers.Timer.{
  gpt_count_val, gpt_freq, advance, wait_count, in_ticks, udelay,
}

-- Some readings of the counter, oldest first, put into a trace.
abbrev pub readings : List ℕ → List Event → List Event
readings [] events = events
readings (v ∷ vs) events = readings vs (loaded gpt_count_val v ∷ events)

-- The ticks between a reading and the last of those that follow, if the counter starts again at
-- GPT_FREQ and two readings are less than a turn apart.
abbrev pub elapsed : ℕ → List ℕ → ℕ
elapsed last [] = 0
elapsed last (v ∷ vs) = (v + gpt_freq - last) % gpt_freq + elapsed v vs

-- What the counter answers when it is read directly after a reading.
abbrev pub reread : (List Event → ℕ → ℕ) → List Event → ℕ → ℕ
reread device events v = u32 (device (loaded gpt_count_val v ∷ events) gpt_count_val)

-- The counter has moved after some readings more: it may answer the same a number of times before.
abbrev pub Moves : (List Event → ℕ → ℕ) → ℕ → List Event → ℕ → Type 0
Moves device zero events v = ⊥
Moves device (suc left) events v =
    reread device events v ≡ v → Moves device left (loaded gpt_count_val v ∷ events) v

-- A counter below GPT_FREQ of which `pace` readings in a row never all answer what stood before.
abbrev pub Ticking : (List Event → ℕ → ℕ) → ℕ → Type 0
Ticking device pace =
    (events : List Event) (v : ℕ)
    → v < gpt_freq
    → (reread device events v < gpt_freq) × Moves device pace events v

-- A step from `last` to `now` on a counter that starts again at GPT_FREQ.
pub advance_lem :
    (runcount last now : ℕ)
    → last < gpt_freq
    → now < gpt_freq
    → runcount + gpt_freq < 2 ^ 32
    → (advance runcount last now ≡ runcount + (now + gpt_freq - last) % gpt_freq)
unfolding advance
advance_lem runcount last now a b c = ground arith

budget : (pace left : ℕ) → 0 < left → pace + pace * (left - 1) ≡ pace * left
budget pace zero h = elim h [ ]
budget pace (suc left) h = grind arith

-- `same` readings may still answer `last`, and `left` ticks are still to wait for.
wait_count_lem :
    (pace left same reads val runcount last : ℕ) (events : List Event) (m : Machine)
    → Ticking m.device pace
    → Moves m.device same events last
    → last < gpt_freq
    → runcount + gpt_freq < 2 ^ 32
    → val + gpt_freq < 2 ^ 32
    → val ≤ runcount + left
    → same + pace * left < reads
    → (vs : List ℕ) × (wait_count reads val runcount last
          (record m { trace = loaded gpt_count_val last ∷ events })
        ≡ ok tt (record m { trace = readings vs (loaded gpt_count_val last ∷ events) }))
      × (val ≤ runcount + elapsed last vs)
unfolding wait_count
wait_count_lem pace left same zero val runcount last events m ticking moves a b c d h = elim h [ ]
wait_count_lem pace left zero (suc reads) val runcount last events m ticking moves a b c d h =
    elim moves [ ]
wait_count_lem pace left (suc same) (suc reads) val runcount last events m ticking moves a b c d h =
    let now = reread m.device events last in
    let before = loaded gpt_count_val last ∷ events in
    let (below, _) = ticking events last a in
    let step = advance_lem runcount last now a below b in
    elim (Bool-cases (ltb (advance runcount last now) val)) [
      | inl e ↦
          let lt = ltb→lt _ _ e in
          elim (Bool-cases (now == last)) [
            | inl still ↦
                let unmoved : now ≡ last = (==_iff now last).0 still in
                let (vs, f, g) =
                  wait_count_lem pace left same reads val (advance runcount last now) now before m
                    ticking (rw unmoved (moves unmoved)) below (omega arith) c (omega arith)
                    (omega arith) in
                (now ∷ vs, rw e f, omega arith)
            | inr moved ↦
                let other : now ≢ last = ground arith in
                let whole = budget pace left (omega arith) in
                let (vs, f, g) =
                  wait_count_lem pace (left - 1) pace reads val (advance runcount last now) now
                    before m ticking (ticking before now below).1 below (omega arith) c
                    (omega arith) (omega arith) in
                (now ∷ vs, rw e f, omega arith)
          ]
      | inr e ↦ (now ∷ [], rw e refl, omega (arith, ltb→le _ _ e))
    ]

-- On a counter below GPT_FREQ of which `pace` readings in a row never all answer the same as the
-- one before them, `udelay` returns once it is given more than `pace` readings for each tick to
-- wait for and `pace` besides, and the counter has then advanced by at least as many ticks as the
-- microseconds convert to. It does nothing but read the counter.
pub udelay-elapsed :
    (pace reads usec : ℕ) (m : Machine)
    → Ticking m.device pace
    → u32 (m.device m.trace gpt_count_val) < gpt_freq
    → pace + pace * in_ticks usec < reads
    → (vs : List ℕ) × (udelay reads usec m
        ≡ ok tt (record m { trace = readings (u32 (m.device m.trace gpt_count_val) ∷ vs) m.trace }))
      × (in_ticks usec ≤ elapsed (u32 (m.device m.trace gpt_count_val)) vs)
unfolding udelay
udelay-elapsed pace reads usec m ticking a h =
    let last = u32 (m.device m.trace gpt_count_val) in
    let small : in_ticks usec < 2 ^ 27 = unfold in_ticks in omega arith in
    let (vs, e, f) =
      wait_count_lem pace (in_ticks usec) pace reads (add32 (in_ticks usec) last) last last m.trace
        m ticking (ticking m.trace last a).1 a (omega arith) (omega arith) (omega arith) h in
    (vs, e, omega arith)

-- The counter runs, whatever else is read and written, at some number of readings for a tick.
pub record Runs (device : List Event → ℕ → ℕ) : Type 0 where
  pub pace : ℕ
  pub ticking : Ticking device pace
  pub below : (events : List Event) → u32 (device events gpt_count_val) < gpt_freq

readings-log :
    (vs : List ℕ) (events : List Event)
    → readings vs events ≡ log (map (λ v. (gpt_count_val, v)) vs) events
readings-log [] events = refl
readings-log (v ∷ vs) events = readings-log vs (loaded gpt_count_val v ∷ events)

-- A delay does nothing but load.
pub udelay-Reads :
    (reads usec : ℕ) (m : Machine)
    → (runs : Runs m.device) → in_ticks usec ≤ 32
    → 33 * runs.pace < reads
    → (loads : List (ℕ × ℕ)) × (udelay reads usec m
        ≡ ok tt (record m { trace = log loads m.trace }))
udelay-Reads reads usec m runs short h =
    let most : runs.pace * in_ticks usec ≤ runs.pace * 32 = grind arith in
    let (vs, e, f) =
      udelay-elapsed runs.pace reads usec m runs.ticking (runs.below m.trace) (omega arith) in
    (
      map (λ v. (gpt_count_val, v)) (u32 (m.device m.trace gpt_count_val) ∷ vs),
      rw e (rw readings-log refl),
    )
