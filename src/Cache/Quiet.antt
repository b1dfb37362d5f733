-- ===== src/Cache/Quiet.antt =====
-- The maintenance loops of src/cpu.c as runs.
use qcom_ipq_aux_loader.Base.{
  ℕ, zero, suc, ◌+◌, List, refl, ◌≡◌, ◌==◌, ◌||◌, bit_and, shr, Bool-cases, inl, inr, ◌*◌,
}
use qcom_ipq_aux_loader.Machine.Run.{Event, SysReg, dcisw, dccisw, Machine, M, Run, ok, and_then}
use qcom_ipq_aux_loader.Cache.{
  sets_down, ways_down, level_setway, v7_maint_dcache_level_setway, levels_up, v7_maint_dcache_all,
  flush_dcache_all, invalidate_dcache_all,
}

-- A run that returns with `a` and has added to the trace alone.
abbrev pub Quiet : {A : Type 0} → A → Machine → Run A → Type 0
Quiet a m r = (events : List Event) × (r ≡ ok a (record m { trace = events }))

pub Quiet-then :
    {A : Type 0} (r : Run (Unit {0})) (k : Unit {0} → M A) (a : A) (m : Machine)
    → Quiet tt m r
    → ((events : List Event) → Quiet a m (k tt (record m { trace = events })))
    → Quiet a m (and_then r k)
Quiet-then r k a m (events, e) rest = let (events', f) = rest events in (events', rw e f)

sets-Quiet :
    (op : SysReg) (level log2 ws way n : ℕ) (m : Machine)
    → Quiet tt m (sets_down op level log2 ws way n m)
unfolding sets_down
sets-Quiet op level log2 ws way zero m = (m.trace, refl)
sets-Quiet op level log2 ws way (suc n) m =
    sets-Quiet op level log2 ws way n (record m { trace = _ })

ways-Quiet :
    (op : SysReg) (level log2 ws sets n : ℕ) (m : Machine)
    → Quiet tt m (ways_down op level log2 ws sets n m)
unfolding ways_down
ways-Quiet op level log2 ws sets zero m = (m.trace, refl)
ways-Quiet op level log2 ws sets (suc n) m =
    Quiet-then _ _ tt m (sets-Quiet op level log2 ws n sets m)
      λ events. ways-Quiet op level log2 ws sets n (record m { trace = events })

level-Quiet :
    (op : SysReg) (level : ℕ) (m : Machine) → Quiet tt m (v7_maint_dcache_level_setway op level m)
unfolding v7_maint_dcache_level_setway level_setway
level-Quiet op level m = Quiet-then _ _ tt m (ways-Quiet op level _ _ _ _ _) λ events. (_, refl)

levels-Quiet :
    (op : SysReg) (ids level left : ℕ) (m : Machine) → Quiet tt m (levels_up op ids level left m)
unfolding levels_up
levels-Quiet op ids level zero m = (m.trace, refl)
levels-Quiet op ids level (suc left) m =
    let t = bit_and (shr ids (3 * level)) 0x7 in
    elim (Bool-cases (t == 2 || t == 3 || t == 4)) [
      | inl e ↦ rw e (
          Quiet-then _ _ tt m (level-Quiet op level m)
            λ events. levels-Quiet op ids (level + 1) left (record m { trace = events }))
      | inr e ↦ rw e (levels-Quiet op ids (level + 1) left m)
    ]

-- The maintenance of all levels returns, and changes neither the memory, the control register nor
-- any other global.
pub maint_all-Quiet : (op : SysReg) (m : Machine) → Quiet tt m (v7_maint_dcache_all op m)
unfolding v7_maint_dcache_all
maint_all-Quiet op m = levels-Quiet op _ 0 7 m

pub flush-Quiet : (m : Machine) → Quiet tt m (flush_dcache_all m)
unfolding flush_dcache_all
flush-Quiet m = Quiet-then _ _ tt m (maint_all-Quiet dccisw m) λ events. (events, refl)

pub invalidate-Quiet : (m : Machine) → Quiet tt m (invalidate_dcache_all m)
unfolding invalidate_dcache_all
invalidate-Quiet m = Quiet-then _ _ tt m (maint_all-Quiet dcisw m) λ events. (events, refl)
