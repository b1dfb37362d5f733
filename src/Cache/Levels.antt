-- ===== src/Cache/Levels.antt =====
-- The maintenance of all levels in src/cpu.c.
use mathlib.Core.List.{map, append_assoc, append-nil}
use qcom_ipq_aux_loader.Base.{
  ℕ, zero, suc, ◌+◌, ◌*◌, ◌/◌, ◌%◌, ◌^◌, ◌<◌, ◌≤◌, ◌≡◌, ◌↔◌, refl, sym, subst, ap, List, [], ◌∷◌,
  ◌++◌, Bool, true, false, ◌||◌, arith, Bool-cases, inl, inr, u32, ◌==◌, ==_iff, bit_and, shr,
}
use qcom_ipq_aux_loader.Base.Bits.{bit_and_low}
use qcom_ipq_aux_loader.Machine.Run.{
  Event, mcr, dsb, csselr, ccsidr, clidr, SysReg, Machine, Run, ok,
}
use qcom_ipq_aux_loader.Cache.{v7_maint_dcache_level_setway, levels_up, v7_maint_dcache_all}
use qcom_ipq_aux_loader.Cache.Coverage.{Has}
use qcom_ipq_aux_loader.Cache.Sweep.{count}
use qcom_ipq_aux_loader.Cache.Geometry.{
  line_log2, ways, sets, way_place, level_size, maint_dcache_level-Once,
}

-- What CLIDR says of a level: 2, 3 and 4 name one that holds data.
abbrev pub level_type : ℕ → ℕ → ℕ
level_type ids level = ids / 2 ^ (3 * level) % 8

abbrev pub HasData : ℕ → ℕ → Type 0
HasData ids level = (2 ≤ level_type ids level) × (level_type ids level ≤ 4)

-- CLIDR always gives the same word, and CCSIDR answers by the selected level alone, with at least
-- two ways and room for sets and lines below the way field in every level that holds data.
pub record IsCache (coprocessor : List Event → SysReg → ℕ) (ids : ℕ) (size : ℕ → ℕ) : Type 0 where
  pub identified : (events : List Event) → u32 (coprocessor events clidr) ≡ ids
  pub answers :
      (events : List Event) (level : ℕ)
      → u32 (coprocessor (mcr csselr (2 * level) ∷ events) ccsidr) ≡ size level
  pub several : (level : ℕ) → level < 7 → HasData ids level → 1 < ways (size level)
  pub room :
      (level : ℕ)
      → level < 7
      → HasData ids level
      → sets (size level) * 2 ^ line_log2 (size level) ≤ 2 ^ way_place (size level)

-- The word for a line, with the number of its level.
abbrev pub line_word : ℕ → ℕ → ℕ → ℕ → ℕ
line_word size level set way = 2 * level + set * 2 ^ line_log2 size + way * 2 ^ way_place size

count-Has :
    (op : SysReg) (word : ℕ) (words : List ℕ) (events : List Event)
    → count word words ≡ 1
    → Has (mcr op word) (map (mcr op) words ++ events)
count-Has op word [] events h = absurd (omega arith)
count-Has op word (w ∷ words) events h = elim (Bool-cases (w == word)) [
  | inl e ↦ inl (ap (mcr op) ((==_iff w word).0 e))
  | inr e ↦ inr (count-Has op word words events (rw e at h))
]

Has-first : (e : Event) (first events : List Event) → Has e first → Has e (first ++ events)
Has-first e [] events h = absurd h
Has-first e (x ∷ first) events h = elim h [
  | inl same ↦ inl same
  | inr more ↦ inr (Has-first e first events more)
]

Has-append : (e : Event) (first events : List Event) → Has e events → Has e (first ++ events)
Has-append e [] events h = h
Has-append e (x ∷ first) events h = inr (Has-append e first events h)

-- Every line of some levels that hold data is among the events.
abbrev pub Covers : SysReg → ℕ → (ℕ → ℕ) → ℕ → ℕ → List Event → Type 0
Covers op ids size from upto events =
    (level set way : ℕ)
    → from ≤ level
    → level < upto
    → HasData ids level
    → set < sets (size level)
    → way < ways (size level)
    → Has (mcr op (line_word (size level) level set way)) events

-- A run returns, and the events that it adds cover some levels.
abbrev pub Maintains : SysReg → ℕ → (ℕ → ℕ) → ℕ → ℕ → Machine → Run (Unit {0}) → Type 0
Maintains op ids size from upto m r =
    (issued : List Event) × (r ≡ ok tt (record m { trace = issued ++ m.trace }))
    × Covers op ids size from upto issued

-- The test of `v7_maint_dcache_all`.
abbrev has_data : ℕ → Bool
has_data t = t == 2 || t == 3 || t == 4

has_data_iff : (t : ℕ) → (has_data t ≡ true) ↔ (2 ≤ t) × (t ≤ 4)
has_data_iff t = (λ h. (ground arith, ground arith), λ (h, g). ground arith)

module _ (op : SysReg) (ids : ℕ) (size : ℕ → ℕ) where
  swept-Covers :
      (level : ℕ) (words : List ℕ) (before : List Event)
      → ((set way : ℕ)
          → set < sets (size level)
          → way < ways (size level)
          → count (line_word (size level) level set way) words ≡ 1)
      → Covers op ids size level (level + 1) (mcr dsb 0 ∷ map (mcr op) words ++ before)
  swept-Covers level words before once l set way above below has =
      subst
        (λ k.
          set < sets (size k)
          → way < ways (size k)
          → Has (mcr op (line_word (size k) k set way)) (mcr dsb 0 ∷ map (mcr op) words ++ before))
        {x = level} {y = l} (omega arith)
        (λ hs hw. inr (count-Has op _ words before (once set way hs hw)))

  one_level :
      (level : ℕ) (m : Machine)
      → IsCache m.coprocessor ids size
      → level < 7
      → HasData ids level
      → Maintains op ids size level (level + 1) m (v7_maint_dcache_level_setway op level m)
  one_level level m cache small has =
      let answer : level_size m level ≡ size level = cache.answers m.trace level in
      let several : 1 < ways (level_size m level) = rw answer (cache.several level small has) in
      let room : sets (level_size m level) * 2 ^ line_log2 (level_size m level)
          ≤ 2 ^ way_place (level_size m level) =
        rw answer (cache.room level small has) in
      let (words, e, long, once) = maint_dcache_level-Once op level m small several room in
      let selected = mcr csselr (2 * level) ∷ [] in
      let shape : map (mcr op) words ++ mcr csselr (2 * level) ∷ m.trace
          ≡ (map (mcr op) words ++ selected) ++ m.trace =
        sym (append_assoc (map (mcr op) words) selected m.trace) in
      (
        mcr dsb 0 ∷ map (mcr op) words ++ selected,
        rw (← shape) e,
        swept-Covers level words selected (rw answer at once),
      )

  free-Covers :
      (level : ℕ) (events : List Event)
      → has_data (level_type ids level) ≡ false
      → Covers op ids size level (level + 1) events
  free-Covers level events free l set way above below has =
      let same : level ≡ l = omega arith in
      let holds = (has_data_iff (level_type ids l)).1 has in
      let free' = rw same at free in absurd (cc)

  join-Covers :
      (from upto : ℕ) (later first : List Event)
      → Covers op ids size from (from + 1) first
      → Covers op ids size (from + 1) upto later
      → Covers op ids size from upto (later ++ first)
  join-Covers from upto later first now rest l set way above below has hs hw =
      elim (Bool-cases (l == from)) [
        | inl e ↦ Has-append _ later first (now l set way above (ground arith) has hs hw)
        | inr e ↦ Has-first _ later first (rest l set way (ground arith) below has hs hw)
      ]

  levels_lem :
      (level left : ℕ) (m : Machine)
      → IsCache m.coprocessor ids size
      → level + left ≡ 7
      → Maintains op ids size level 7 m (levels_up op ids level left m)
  unfolding levels_up
  levels_lem level zero m cache e =
      ([], refl, λ l set way above below has hs hw. absurd (omega arith))
  levels_lem level (suc left) m cache e =
      let rest = λ (events : List Event).
        levels_lem (level + 1) left (record m { trace = events }) cache (omega arith) in
      let field : bit_and (shr ids (3 * level)) 7 ≡ level_type ids level =
        bit_and_low 3 (shr ids (3 * level)) in
      elim (Bool-cases (has_data (level_type ids level))) [
        | inl holds ↦
            let (first, run, now) =
              one_level level m cache (omega arith) ((has_data_iff _).0 holds) in
            let (later, run', covered) = rest (first ++ m.trace) in
            (
              later ++ first,
              rw (field, holds, run, append_assoc later first m.trace) run',
              join-Covers level 7 later first now covered,
            )
        | inr free ↦
            let (later, run, covered) = rest m.trace in
            (
              later ++ [],
              rw (field, free, append-nil) run,
              join-Covers level 7 later [] (free-Covers level [] free) covered,
            )
      ]

-- With caches that always announce the same levels in CLIDR, whose CCSIDR answers by the selected
-- level alone, and of which every level that holds data has at least two ways and room for its sets
-- and lines below the way field: `v7_maint_dcache_all` returns and changes nothing but the trace,
-- to which it adds events. Among these is, for each of the seven levels that CLIDR says to hold
-- data, the operation for every set and way, with the level's number from bit 1 on, the set above
-- the bytes of a line, and the way in the top bits.
pub v7_maint_dcache_all-Maintains :
    (op : SysReg) (ids : ℕ) (size : ℕ → ℕ) (m : Machine)
    → IsCache m.coprocessor ids size
    → Maintains op ids size 0 7 m (v7_maint_dcache_all op m)
unfolding v7_maint_dcache_all
v7_maint_dcache_all-Maintains op ids size m cache =
    rw (cache.identified m.trace) (levels_lem op ids size 0 7 m cache (omega arith))
