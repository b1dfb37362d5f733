-- ===== src/Drivers/Mdio/Transacts.antt =====
-- The transactions of src/mdio.c, register by register.
use mathlib.Core.List.{append_assoc}
use qcom_ipq_aux_loader.Base.{
  ℕ, zero, suc, ◌+◌, ◌*◌, ◌/◌, ◌%◌, ◌^◌, ◌<◌, ◌≡◌, ◌⊎◌, refl, ap, Bool, true, List, [], ◌∷◌, ◌++◌,
  ◌&&◌, u32, add32, bit_and, arith, Bool-cases, inl, inr, ◌==◌, ==_iff, and-eq-true,
}
use qcom_ipq_aux_loader.Machine.Run.{Event, wrote, loaded, Machine, M, Run, ok, pure, readl}
use qcom_ipq_aux_loader.Machine.Loads.{log, log-append}
use qcom_ipq_aux_loader.Drivers.Timer.{in_ticks}
use qcom_ipq_aux_loader.Drivers.Timer.Elapsed.{Runs, udelay-Reads}
use qcom_ipq_aux_loader.Drivers.Mdio.{
  mii_addr_reg_addr, mii_data_reg_addr, mii_busy, minus_one, read_miiaddr, write_miiaddr, poll,
  ipq_mdio_read, ipq_mdio_write,
}

-- A run that returns what `P` says of its result and its loads, and does nothing but load.
abbrev pub Reads : (ℕ → List (ℕ × ℕ) → Type 0) → Machine → Run ℕ → Type 0
Reads P m r =
    (a : ℕ) × (loads : List (ℕ × ℕ)) × (r ≡ ok a (record m { trace = log loads m.trace }))
    × P a loads

-- No answer; or a status without the busy bit, and then `after`.
abbrev pub Answer : ℕ → (ℕ → List (ℕ × ℕ)) → (ℕ → Type 0) → ℕ → List (ℕ × ℕ) → Type 0
Answer register after good a loads =
    (a ≡ minus_one)
    ⊎ ((before : List (ℕ × ℕ)) × (status : ℕ) × (bit_and status mii_busy ≡ 0)
        × (loads ≡ before ++ (register, status) ∷ after a)
        × good a)

later :
    (register : ℕ) (after : ℕ → List (ℕ × ℕ)) (good : ℕ → Type 0) (first : List (ℕ × ℕ)) (a : ℕ)
    (loads : List (ℕ × ℕ))
    → Answer register after good a loads
    → Answer register after good a (first ++ loads)
later register after good first a loads (inl none) = inl none
later register after good first a loads (inr (before, status, idle, same, fine)) =
    inr (first ++ before, status, idle, rw (same, append_assoc) refl, fine)

module _ (reads reg_base : ℕ) (after : ℕ → List (ℕ × ℕ)) (good : ℕ → Type 0) (ready : M ℕ) where
  poll-Reads :
      (left : ℕ) (m : Machine)
      → (runs : Runs m.device) → 33 * runs.pace < reads
      → ((events : List Event)
          → Reads
              (λ a loads. (loads ≡ after a) × good a)
              (record m { trace = events })
              (ready (record m { trace = events })))
      → Reads
          (Answer (add32 reg_base mii_addr_reg_addr) after good)
          m
          (poll reads reg_base ready left m)
  unfolding poll in_ticks
  poll-Reads zero m runs h done = (minus_one, [], refl, inl refl)
  poll-Reads (suc left) m runs h done =
      let register = add32 reg_base mii_addr_reg_addr in
      let status = u32 (m.device m.trace register) in
      elim (Bool-cases (bit_and status mii_busy == 0)) [
        | inl e ↦
            let (a, loads, f, (same, fine)) = done (loaded register status ∷ m.trace) in
            rw e (
              a,
              (register, status) ∷ loads,
              f,
              inr ([], status, (==_iff _ _).0 e, ap (λ l. (register, status) ∷ l) same, fine),
            )
        | inr e ↦
            let (waited, f) =
              udelay-Reads reads 1000 (record m { trace = loaded register status ∷ m.trace }) runs
                (omega arith) h in
            let (a, loads, g, answer) =
              poll-Reads left (record m { trace = log waited (loaded register status ∷ m.trace) })
                runs h done in
            rw (e, f)
              (
                a,
                (register, status) ∷ waited ++ loads,
                rw log-append g,
                later register after good ((register, status) ∷ waited) a loads answer,
              )
      ]

-- Two functions of a device's number and a register's, compared at each of the first `left` pairs.
same_words : (ℕ → ℕ → ℕ) → (ℕ → ℕ → ℕ) → ℕ → Bool
same_words f g zero = true
same_words f g (suc left) =
    f (left / 32) (left % 32) == g (left / 32) (left % 32) && same_words f g left

same_words-eq :
    (f g : ℕ → ℕ → ℕ) (left pair : ℕ)
    → pair < left
    → same_words f g left ≡ true
    → f (pair / 32) (pair % 32) ≡ g (pair / 32) (pair % 32)
unfolding same_words
same_words-eq f g zero pair lt e = elim lt [ ]
same_words-eq f g (suc left) pair lt e =
    let (last, others) = and-eq-true _ _ e in
    elim (Bool-cases (pair == left)) [
      | inl same ↦ rw ((==_iff pair left).0 same) ((==_iff _ _).0 last)
      | inr other ↦ same_words-eq f g left pair (ground arith) others
    ]

at_pair :
    (f g : ℕ → ℕ → ℕ) (phy reg : ℕ)
    → same_words f g 1024 ≡ true
    → phy < 32
    → reg < 32
    → f phy reg ≡ g phy reg
at_pair f g phy reg e h k =
    let pair = phy * 32 + reg in
    let first : pair / 32 ≡ phy = omega arith in
    let second : pair % 32 ≡ reg = omega arith in
    rw (first, second) at (same_words-eq f g 1024 pair (omega arith) e)

-- The number of the device, the register and the command of a transaction.
abbrev pub command : ℕ → ℕ → ℕ → ℕ
command phy reg op = 2 ^ 11 * phy + 2 ^ 6 * reg + op

read_words : same_words read_miiaddr (λ phy reg. command phy reg 0x15) 1024 ≡ true
unfolding same_words read_miiaddr
read_words = refl

write_words : same_words write_miiaddr (λ phy reg. command phy reg 0x17) 1024 ≡ true
unfolding same_words write_miiaddr
write_words = refl

-- Behind its stores a transaction does nothing but load, and comes to an answer.
pub mdio_read-Reads :
    (reads phy reg : ℕ) (m : Machine)
    → (runs : Runs m.device) → 33 * runs.pace < reads
    → Reads
        (Answer
          (add32 m.mdio_reg_base mii_addr_reg_addr)
          (λ a. (add32 m.mdio_reg_base mii_data_reg_addr, a) ∷ [])
          (λ a. a < 2 ^ 32))
        (record m {
          trace =
              wrote (add32 m.mdio_reg_base mii_addr_reg_addr) (u32 (read_miiaddr phy reg))
              ∷ m.trace;
        })
        (ipq_mdio_read reads phy reg m)
unfolding ipq_mdio_read in_ticks
mdio_read-Reads reads phy reg m runs h =
    let start =
      wrote (add32 m.mdio_reg_base mii_addr_reg_addr) (u32 (read_miiaddr phy reg)) ∷ m.trace in
    let (waited, e) = udelay-Reads reads 10 (record m { trace = start }) runs (omega arith) h in
    let (a, loads, f, answer) =
      poll-Reads reads m.mdio_reg_base (λ a. (add32 m.mdio_reg_base mii_data_reg_addr, a) ∷ [])
        (λ a. a < 2 ^ 32) (readl (add32 m.mdio_reg_base mii_data_reg_addr)) 10
        (record m { trace = log waited start }) runs h
        λ events.
          let v = u32 (m.device events (add32 m.mdio_reg_base mii_data_reg_addr)) in
          (v, (add32 m.mdio_reg_base mii_data_reg_addr, v) ∷ [], refl, (refl, omega arith)) in
    (
      a,
      waited ++ loads,
      rw (e, log-append) f,
      later (add32 m.mdio_reg_base mii_addr_reg_addr)
          (λ a. (add32 m.mdio_reg_base mii_data_reg_addr, a) ∷ []) (λ a. a < 2 ^ 32) waited a loads
          answer,
    )

pub mdio_write-Reads :
    (reads phy reg value : ℕ) (m : Machine)
    → (runs : Runs m.device) → 33 * runs.pace < reads
    → Reads
        (Answer (add32 m.mdio_reg_base mii_addr_reg_addr) (λ a. []) (λ a. a ≡ 0))
        (record m {
          trace =
              wrote (add32 m.mdio_reg_base mii_addr_reg_addr) (u32 (write_miiaddr phy reg))
              ∷ wrote (add32 m.mdio_reg_base mii_data_reg_addr) (u32 (value % 2 ^ 16))
              ∷ m.trace;
        })
        (ipq_mdio_write reads phy reg value m)
unfolding ipq_mdio_write in_ticks
mdio_write-Reads reads phy reg value m runs h =
    let start =
      wrote (add32 m.mdio_reg_base mii_addr_reg_addr) (u32 (write_miiaddr phy reg))
      ∷ wrote (add32 m.mdio_reg_base mii_data_reg_addr) (u32 (value % 2 ^ 16))
      ∷ m.trace in
    let (waited, e) = udelay-Reads reads 10 (record m { trace = start }) runs (omega arith) h in
    let (a, loads, f, answer) =
      poll-Reads reads m.mdio_reg_base (λ a. []) (λ a. a ≡ 0) (pure 0) 10
        (record m { trace = log waited start }) runs h λ events. (0, [], refl, (refl, refl)) in
    (
      a,
      waited ++ loads,
      rw (e, log-append) f,
      later (add32 m.mdio_reg_base mii_addr_reg_addr) (λ a. []) (λ a. a ≡ 0) waited a loads answer,
    )

-- If the timer's counter runs and the delays are given more than 33 times the readings that it
-- takes to move, whatever the hardware answers: `ipq_mdio_read` stores one command, with the device
-- in bits 11 to 15, the register in bits 6 to 10 and the clock range and the start bit below, then
-- only loads, and returns: the value that it loads from the data register directly behind a status
-- without the busy bit, or -1. Of the machine only the trace changes.
pub mdio_read-Transacts :
    (reads phy reg : ℕ) (m : Machine)
    → (runs : Runs m.device) → 33 * runs.pace < reads
    → phy < 32
    → reg < 32
    → Reads
        (Answer
          (add32 m.mdio_reg_base mii_addr_reg_addr)
          (λ a. (add32 m.mdio_reg_base mii_data_reg_addr, a) ∷ [])
          (λ a. a < 2 ^ 32))
        (record m {
          trace = wrote (add32 m.mdio_reg_base mii_addr_reg_addr) (command phy reg 0x15) ∷ m.trace;
        })
        (ipq_mdio_read reads phy reg m)
mdio_read-Transacts reads phy reg m runs h p r =
    let word : u32 (read_miiaddr phy reg) ≡ command phy reg 0x15 =
      omega (arith, at_pair read_miiaddr (λ a b. command a b 0x15) phy reg read_words p r) in
    rw word at (mdio_read-Reads reads phy reg m runs h)

-- If the timer's counter runs and the delays are given more than 33 times the readings that it
-- takes to move, whatever the hardware answers: `ipq_mdio_write` stores the value's low 16 bits in
-- the data register, and then one command, with the device in bits 11 to 15, the register in bits 6
-- to 10 and the clock range, the write bit and the start bit below. Then it only loads, and
-- returns: 0 directly behind a status without the busy bit, or -1. Of the machine only the trace
-- changes.
pub mdio_write-Transacts :
    (reads phy reg value : ℕ) (m : Machine)
    → (runs : Runs m.device) → 33 * runs.pace < reads
    → phy < 32
    → reg < 32
    → Reads
        (Answer (add32 m.mdio_reg_base mii_addr_reg_addr) (λ a. []) (λ a. a ≡ 0))
        (record m {
          trace =
              wrote (add32 m.mdio_reg_base mii_addr_reg_addr) (command phy reg 0x17)
              ∷ wrote (add32 m.mdio_reg_base mii_data_reg_addr) (value % 2 ^ 16)
              ∷ m.trace;
        })
        (ipq_mdio_write reads phy reg value m)
mdio_write-Transacts reads phy reg value m runs h p r =
    let word : u32 (write_miiaddr phy reg) ≡ command phy reg 0x17 =
      omega (arith, at_pair write_miiaddr (λ a b. command a b 0x17) phy reg write_words p r) in
    let half : u32 (value % 2 ^ 16) ≡ value % 2 ^ 16 = omega arith in
    rw (word, half) at (mdio_write-Reads reads phy reg value m runs h)
