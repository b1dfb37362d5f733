-- ===== src/Startup/Entry.antt =====
-- From the boot loader's jump to the head (src/head.S) up to `loader_main`.
use qcom_ipq_aux_loader.Base.{
  ℕ, ◌+◌, ◌*◌, ◌/◌, ◌^◌, ◌≤◌, ◌<◌, ◌≡◌, ◌⊎◌, refl, ◌∙◌, List, ◌∷◌, ◌++◌, arith, u32, add32, sub32,
}
use qcom_ipq_aux_loader.Machine.Memory.{Memory, load8}
use qcom_ipq_aux_loader.Machine.Run.{
  Event, wrote, mcr, cpsr, vbar, iciallu, dsb, isb, Machine, Run, ok,
}
use qcom_ipq_aux_loader.Machine.Jumps.{jumps}
use qcom_ipq_aux_loader.Loader.Ends.{jumps-setup_events}
use qcom_ipq_aux_loader.Drivers.Cpu.{Cpu, ipq4xxx, ipq806x}
use qcom_ipq_aux_loader.Drivers.Watchdog.{wdt, ticks, watchdog_resetup}
use qcom_ipq_aux_loader.Drivers.Watchdog.Sequence.{
  IsArmed, setup_events, setup_lem, setup_events-IsArmed,
}
use qcom_ipq_aux_loader.Loader.Given.{Build}
use qcom_ipq_aux_loader.Loader.Memcpy.Copies.{Copied}
use qcom_ipq_aux_loader.Loader.{loader_main}
use qcom_ipq_aux_loader.Startup.{
  Image, jump_2_ram, relocate_code, head_start, initial, svc_mode, set_up_c, ram_start, start_up,
}
use qcom_ipq_aux_loader.Startup.Relocation.{copied_size, copy_loop-Copied}
use qcom_ipq_aux_loader.Startup.Bss.{Cleared, clear_bss-Cleared}

-- Where the payload of `n` bytes stands before it is moved.
abbrev pub payload : Image → ℕ
payload image = image.payload_data_begin_ofs + image.start

-- The linker scripts' part, for a payload of `n` bytes and a BSS of a number of words, a place of
-- the head where the move is possible, and enough fuel.
pub record IsPlaced (b : Build) (image : Image) (n words : ℕ) : Type 0 where
  pub size : image.payload_data_end_ofs ≡ image.payload_data_begin_ofs + n
  pub nonempty : 0 < n
  pub src_fits : payload image + copied_size n + 4 < 2 ^ 32
  pub dst_fits : image.text_base + copied_size n < 2 ^ 32
  pub apart : (image.text_base ≤ payload image) ⊎ (payload image + copied_size n ≤ image.text_base)
  pub bss_size : image.bss_end ≡ image.bss_start + 4 * words
  pub bss_fits : image.bss_start + 4 * words < 2 ^ 32
  pub bss_behind : image.text_base + n ≤ image.bss_start
  pub rounds : (n + 7) / 8 ≤ b.fuel
  pub bss_rounds : words < b.fuel

-- The events of the head: the watchdog set up for ten seconds, then the caches.
abbrev pub head_trace : Cpu → List Event → List Event
head_trace cpu events =
    mcr isb 0 ∷ mcr dsb 0 ∷ mcr iciallu 0 ∷ (setup_events cpu 10 ++ wrote (wdt cpu).en 0 ∷ events)

-- A run that is the call of `loader_main` with the machine's number, with the payload's bytes at
-- the text base, zeroes in the BSS, the C globals as initialised, the watchdog armed, no kernel
-- called, and no byte changed elsewhere.
pub record Enters (b : Build) (image : Image) (n words arch : ℕ) (m : Machine) (r : Run (Unit {0}))
    : Type 0 where
  pub memory : Memory
  pub trace : List Event
  pub calls : r ≡ loader_main b arch (initial (record m { trace = trace; memory = memory }))
  pub moved :
      (j : ℕ) → j < n → load8 memory (image.text_base + j) ≡ load8 m.memory (payload image + j)
  pub zeroed : (j : ℕ) → j < 4 * words → load8 memory (image.bss_start + j) ≡ 0
  pub unchanged :
      (a : ℕ)
      → a < 2 ^ 32
      → (a < image.text_base) ⊎ (image.text_base + copied_size n ≤ a)
      → (a < image.bss_start) ⊎ (image.bss_end ≤ a)
      → load8 memory a ≡ load8 m.memory a
  pub armed : IsArmed b.cpu (10 * ticks b.cpu) trace
  pub quiet : jumps trace ≡ jumps m.trace

module _ (b : Build) (image : Image) (n words : ℕ) (h : IsPlaced b image n words) where
  head_start_lem :
      (arch : ℕ) (m : Machine)
      → (mem : Memory) × (head_start b image arch m
          ≡ ok
              (record { r1 = sub32 (add32 image.start 8) 8; r2 = arch })
              (record m { trace = head_trace b.cpu m.trace; memory = mem }))
        × Copied m.memory image.text_base (payload image) (copied_size n) mem
  unfolding head_start relocate_code watchdog_resetup jump_2_ram
  head_start_lem arch m =
      let (mem, e, c) =
        copy_loop-Copied m.memory b.fuel image.text_base (payload image) n h.nonempty h.rounds
          h.src_fits h.dst_fits h.apart in
      let real = sub32 (add32 image.start 8) 8 in
      let from : add32 image.payload_data_begin_ofs real ≡ payload image =
        omega (arith, h.src_fits) in
      let to : add32 image.payload_data_end_ofs real ≡ payload image + n =
        omega (arith, h.src_fits, h.size) in
      (mem, rw (setup_lem b.cpu 10 m, from, to, e) refl, c)

  set_up_c_lem :
      (m : Machine)
      → (mem : Memory) × (set_up_c b image m
          ≡ ok tt (
              initial (record m {
                trace =
                    mcr vbar image.vector_table_stub
                    ∷ mcr cpsr (svc_mode (u32 (m.coprocessor m.trace cpsr)))
                    ∷ m.trace;
                memory = mem;
              })))
        × Cleared m.memory image.bss_start (4 * words) mem
  unfolding set_up_c
  set_up_c_lem m =
      let (mem, e, c) =
        clear_bss-Cleared m.memory b.fuel image.bss_start words h.bss_fits h.bss_rounds in
      (mem, rw (h.bss_size, e) refl, c)

-- Where the linker scripts place the payload and the BSS so that both can be moved and cleared
-- without harm, the start-up code is a call of `loader_main` with the machine's number of the boot
-- loader: the payload's bytes stand at the text base, the BSS is zero, the C globals are as
-- initialised, the watchdog is armed for ten seconds, no kernel has been called, and no byte has
-- changed elsewhere but up to seven behind the payload.
pub start_up-Enters :
    (b : Build) (image : Image) (n words arch : ℕ) (m : Machine)
    → IsPlaced b image n words
    → Enters b image n words arch m (start_up b image arch m)
unfolding start_up ram_start
start_up-Enters b image n words arch m h =
    let (moved, e, c) = head_start_lem b image n words h arch m in
    let (memory, f, d) =
      set_up_c_lem b image n words h
        (record m { trace = head_trace b.cpu m.trace; memory = moved }) in
    let armed = setup_events-IsArmed b.cpu 10 (wrote (wdt b.cpu).en 0 ∷ m.trace) (short b.cpu) in
    record {
      memory = memory;
      trace =
          mcr vbar image.vector_table_stub
          ∷ mcr cpsr (svc_mode (u32 (m.coprocessor (head_trace b.cpu m.trace) cpsr)))
          ∷ head_trace b.cpu m.trace;
      calls = rw (e, f) refl;
      moved = λ j lt.
          d.outside (image.text_base + j) (omega (arith, h.dst_fits)) (omega (arith, h.bss_behind))
          ∙ c.inside j (omega arith);
      zeroed = d.inside;
      unchanged = λ a lt out out'. d.outside a lt (omega (arith, h.bss_size)) ∙ c.outside a lt out;
      armed = record { en = armed.en; rst = armed.rst; bark = armed.bark; bite = armed.bite };
      quiet = jumps-setup_events b.cpu 10 (wrote (wdt b.cpu).en 0 ∷ m.trace);
    }
  where
    short : (cpu : Cpu) → 10 * ticks cpu < 2 ^ 32
    short ipq4xxx = omega arith
    short ipq806x = omega arith
