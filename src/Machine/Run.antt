-- ===== src/Machine/Run.antt =====
-- Runs of C code on the machine: a state monad in which a run may end in a deliberate endless
-- loop (`for(;;)`), or not be finished within the fuel that the model's loops are given.
use qcom_ipq_aux_loader.Base.{ℕ, u32, List, ◌∷◌, Option, none, some}
use qcom_ipq_aux_loader.Machine.Memory.{Memory}

-- The CP15 operations that src/cpu.c and the start-up code issue, by their purpose, the barriers
-- and the status register.
pub data SysReg : Type 0 where
  sctlr ttbr dacr csselr ccsidr clidr : SysReg
  dcisw dccisw iciallu bpiall dsb isb : SysReg
  cpsr vbar l2cpselr l2cpdr : SysReg

pub data Event : Type 0 where
  -- a store to, or a load from, a device register: address and value
  wrote loaded : ℕ → ℕ → Event
  -- a byte handed to `serial_putc`
  putc : ℕ → Event
  -- a coprocessor register written
  mcr : SysReg → ℕ → Event
  -- the jump to the kernel: entry address and the registers r0, r1, r2
  jump : ℕ → ℕ → ℕ → ℕ → Event

-- What the hardware answers to a read may depend on everything that went before.
pub record Machine : Type 0 where
  pub device : List Event → ℕ → ℕ
  pub coprocessor : List Event → SysReg → ℕ
  pub memory : Memory
  pub trace : List Event
  pub control : ℕ
  pub arch : ℕ
  pub kernel_entry : ℕ
  pub kernel_p0 : ℕ
  pub kernel_p1 : ℕ
  pub kernel_p2 : ℕ
  pub bi_dram_0_start : ℕ
  pub bi_dram_0_size : ℕ
  pub mdio_reg_base : ℕ

pub data Run (A : Type 0) : Type 0 where
  ok : A → Machine → Run A
  hang : Machine → Run A
  -- undefined behaviour of C
  fault : Run A
  out_of_fuel : Run A

abbrev pub M : Type 0 → Type 0
M A = Machine → Run A

abbrev pub pure : {A : Type 0} → A → M A
pure = ok

abbrev pub and_then : {A B : Type 0} → Run A → (A → M B) → Run B
and_then (ok a m) k = k a m
and_then (hang m) k = hang m
and_then fault k = fault
and_then out_of_fuel k = out_of_fuel

infixl 5 ◌>>=◌ ◌>>◌
abbrev pub ◌>>=◌ : {A B : Type 0} → M A → (A → M B) → M B
c >>= k = λ m. and_then (c m) k

abbrev pub ◌>>◌ : {B : Type 0} → M (Unit {0}) → M B → M B
c >> d = c >>= λ _. d

abbrev pub emit : Event → M (Unit {0})
emit e m = ok tt (record m { trace = e ∷ m.trace })

-- `writel(v, a)` and `readl(a)`
abbrev pub writel : ℕ → ℕ → M (Unit {0})
writel v a = emit (wrote a (u32 v))

abbrev pub readl : ℕ → M ℕ
readl a m = let v = u32 (m.device m.trace a) in ok v (record m { trace = loaded a v ∷ m.trace })

-- `for(;;);`
abbrev pub for_ever : {A : Type 0} → M A
for_ever = hang

-- The memory as it is, and a new memory.
abbrev pub get_memory : M Memory
get_memory m = ok m.memory m

abbrev pub set_memory : Memory → M (Unit {0})
set_memory mem m = ok tt (record m { memory = mem })

-- A loop of the model that was given fuel.
abbrev pub finished : {A : Type 0} → Option A → M A
finished none m = out_of_fuel
finished (some a) m = ok a m
