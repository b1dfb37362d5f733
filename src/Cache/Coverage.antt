-- ===== src/Cache/Coverage.antt =====
-- The loops of src/cpu.c over the sets and ways of a level.
use qcom_ipq_aux_loader.Base.{
  ℕ, zero, suc, ◌<◌, ◌≡◌, ◌⊎◌, subst, inl, inr, refl, ap, List, [], ◌∷◌, arith, Bool-cases, ◌==◌,
}
use qcom_ipq_aux_loader.Machine.Run.{Event, mcr, dsb, SysReg, Machine, ok}
use qcom_ipq_aux_loader.Cache.{setway_word, sets_down, ways_down, level_setway}

-- The event stands in the trace.
abbrev pub Has : Event → List Event → Type 0
Has e [] = ⊥
Has e (x ∷ events) = (x ≡ e) ⊎ Has e events

module _ (op : SysReg) (level log2_line_len way_shift : ℕ) where
  abbrev pub line : ℕ → ℕ → Event
  line set way = mcr op (setway_word level log2_line_len way_shift set way)

  -- The trace after the sets below `n` of a way.
  abbrev swept : ℕ → ℕ → List Event → List Event
  swept way zero events = events
  swept way (suc set) events = swept way set (line set way ∷ events)

  sets_lem :
      (way n : ℕ) (m : Machine)
      → sets_down op level log2_line_len way_shift way n m
        ≡ ok tt (record m { trace = swept way n m.trace })
  unfolding sets_down
  sets_lem way zero m = refl
  sets_lem way (suc n) m = sets_lem way n (record m { trace = line n way ∷ m.trace })

  Has-swept :
      (e : Event) (way n : ℕ) (events : List Event) → Has e events → Has e (swept way n events)
  Has-swept e way zero events h = h
  Has-swept e way (suc n) events h = Has-swept e way n (line n way ∷ events) (inr h)

  swept-Has :
      (set way n : ℕ) (events : List Event) → set < n → Has (line set way) (swept way n events)
  swept-Has set way zero events h = elim h [ ]
  swept-Has set way (suc n) events h = elim (Bool-cases (set == n)) [
    | inl e ↦
        let same : n ≡ set = ground arith in
        Has-swept (line set way) way n _ (inl (ap (λ s. line s way) same))
    | inr e ↦ let below : set < n = ground arith in swept-Has set way n (line n way ∷ events) below
  ]

  ways_swept : ℕ → ℕ → List Event → List Event
  ways_swept sets zero events = events
  ways_swept sets (suc way) events = ways_swept sets way (swept way sets events)

  ways_lem :
      (sets n : ℕ) (m : Machine)
      → ways_down op level log2_line_len way_shift sets n m
        ≡ ok tt (record m { trace = ways_swept sets n m.trace })
  unfolding ways_down ways_swept
  ways_lem sets zero m = refl
  ways_lem sets (suc n) m =
      rw (sets_lem n sets m, ways_down)
        (ways_lem sets n (record m { trace = swept n sets m.trace }))

  Has-ways_swept :
      (e : Event) (sets n : ℕ) (events : List Event)
      → Has e events
      → Has e (ways_swept sets n events)
  unfolding ways_swept
  Has-ways_swept e sets zero events h = h
  Has-ways_swept e sets (suc n) events h = Has-ways_swept e sets n _ (Has-swept e n sets events h)

  ways_swept-Has :
      (set way sets n : ℕ) (events : List Event)
      → set < sets
      → way < n
      → Has (line set way) (ways_swept sets n events)
  unfolding ways_swept
  ways_swept-Has set way sets zero events h lt = elim lt [ ]
  ways_swept-Has set way sets (suc n) events h lt = elim (Bool-cases (way == n)) [
    | inl e ↦
        let same : way ≡ n = ground arith in
        subst (λ w. Has (line set way) (ways_swept sets w (swept w sets events))) same
          (Has-ways_swept (line set way) sets way _ (swept-Has set way sets events h))
    | inr e ↦
        let below : way < n = ground arith in
        ways_swept-Has set way sets n (swept n sets events) h below
  ]

  -- The loops over a level return, change nothing but the trace, and have issued the operation for
  -- every set and every way of the level.
  pub level_setway-Has :
      (num_sets num_ways set way : ℕ) (m : Machine)
      → set < num_sets
      → way < num_ways
      → (events : List Event) × (level_setway op level num_sets num_ways way_shift log2_line_len m
          ≡ ok tt (record m { trace = events }))
        × Has (line set way) events
  unfolding level_setway
  level_setway-Has num_sets num_ways set way m hs hw = (
    mcr dsb 0 ∷ ways_swept num_sets num_ways m.trace,
    rw (ways_lem num_sets num_ways m) refl,
    inr (ways_swept-Has set way num_sets num_ways m.trace hs hw),
  )
