-- ===== src/Loader/Fit/Loads.antt =====
-- What `handle_fit_header` does with a tree that has all the properties it needs.
use qcom_ipq_aux_loader.Base.{
  ℕ, ◌+◌, ◌^◌, ◌≤◌, ◌<◌, [], ◌∷◌, ◌++◌, codes, refl, ◌≡◌, ◌⊎◌, add32, sub32, ltb, Bool-cases, inl,
  inr, some, if◌then◌else◌,
}
use qcom_ipq_aux_loader.Base.Int.{ℤ, pos}
use qcom_ipq_aux_loader.Base.Digits.{bit}
use qcom_ipq_aux_loader.Machine.Run.{Machine, Run, ok, wrote}
use qcom_ipq_aux_loader.Machine.Memory.{Memory}
use qcom_ipq_aux_loader.Machine.Touches.{Touched, touched, Touches, print-Touches}
use qcom_ipq_aux_loader.Printf.Format.Typed.{typed}
use qcom_ipq_aux_loader.Fdt.{Reply}
use qcom_ipq_aux_loader.Lzma.Returns.{Answers, gogogo-Touches}
use qcom_ipq_aux_loader.Drivers.Watchdog.{wdt}
use qcom_ipq_aux_loader.Drivers.Watchdog.Sequence.{setup_events, setup_lem}
use qcom_ipq_aux_loader.Cache.Control.Enable.{enable_caches_on}
use qcom_ipq_aux_loader.Cache.Control.Cleanup.{cleanup_off}
use qcom_ipq_aux_loader.Loader.Given.{Build, copy}
use qcom_ipq_aux_loader.Loader.Memcpy.{my_memcpy}
use qcom_ipq_aux_loader.Loader.Memcpy.Copies.{Copied, memcpy-Copied}
use qcom_ipq_aux_loader.Loader.Fit.{uncompress, fit_load}

uncompress-Touches :
    (b : Build) (dst : ℕ) (src : Reply) (m : Machine) (t : Touched)
    → Answers b.decoder
    → Touches m (uncompress b dst src (touched t m))
unfolding uncompress
uncompress-Touches b dst src m t answers =
    let size = add32 (sub32 src.ptr dst) 0x200_0000 in
    let (events, cr, mem, e, _, _, _) =
      enable_caches_on b.page_table (touched (record t { start = dst; size = size }) m) in
    let t₁ : Touched = record {
      trace = events;
      memory = mem;
      control = cr;
      start = dst;
      size = size;
    } in
    let (r, t₂, f) = gogogo-Touches b.decoder answers b.workspace dst src.ptr src.len m t₁ in
    (tt, t₂, rw (e, f) refl)

-- The image is loaded: the entry point and the third parameter are set, the second is kept, the
-- tree's blob stands in the workspace, and both caches are off.
pub record Loads (b : Build) (m : Machine) (kernel_ep : ℕ) (dtb : Reply) (r : Run ℤ) : Type 0 where
  pub end : Machine
  pub before : Memory
  pub ends : r ≡ ok (pos 0) end
  pub entry : end.kernel_entry ≡ kernel_ep
  pub arch : end.kernel_p1 ≡ m.kernel_p1
  pub params : end.kernel_p2 ≡ b.workspace
  pub icache_off : bit 12 end.control ≡ 0
  pub dcache_off : bit 2 end.control ≡ 0
  pub copied : Copied before b.workspace dtb.ptr dtb.len end.memory

-- Room for the tree's blob in the workspace.
pub record Fits (b : Build) (dtb : Reply) : Type 0 where
  pub source : dtb.ptr + dtb.len + 4 < 2 ^ 32
  pub target : b.workspace + dtb.len < 2 ^ 32
  pub apart : (b.workspace ≤ dtb.ptr) ⊎ (dtb.ptr + dtb.len ≤ b.workspace)

-- Where the load address lies below the data, the data is unpacked.
unpacked :
    (b : Build) (dst : ℕ) (src : Reply) (m : Machine) (t : Touched)
    → Answers b.decoder
    → Touches m ((if ltb dst src.ptr then uncompress b dst src else ok tt) (touched t m))
unpacked b dst src m t answers = elim (Bool-cases (ltb dst src.ptr)) [
  | inl e ↦ rw e (uncompress-Touches b dst src m t answers)
  | inr e ↦ rw e (tt, t, refl)
]

-- The copy of the tree's blob is made with both caches off, and ends `fit_load`.
pub fit_load-copies :
    (b : Build) (dst ep : ℕ) (src dtb : Reply) (m : Machine)
    → Answers b.decoder
    → (t : Touched) × (bit 12 t.control ≡ 0)
      × (bit 2 t.control ≡ 0)
      × ((mem : Memory)
          → my_memcpy t.memory b.workspace dtb.ptr dtb.len ≡ some mem
          → fit_load b dst ep src dtb m
            ≡ ok
                (pos 0)
                (record (touched t m) { memory = mem; kernel_entry = ep; kernel_p2 = b.workspace }))
unfolding fit_load copy typed
fit_load-copies b dst ep src dtb m answers =
    let t₀ : Touched = record {
      trace = m.trace;
      memory = m.memory;
      control = m.control;
      start = m.bi_dram_0_start;
      size = m.bi_dram_0_size;
    } in
    let (u, t₁, e₁) = print-Touches (codes "Extracting LZMA kernel...") [] refl tt m t₀ in
    let t₂ : Touched = record t₁ {
      trace = setup_events b.cpu 30 ++ wrote (wdt b.cpu).en 0 ∷ t₁.trace;
    } in
    let (v, t₃, e₃) = unpacked b dst src m t₂ answers in
    let (events, cr, e₄, i, c, o) = cleanup_off b.cpu (touched t₃ m) in
    (
      record t₃ { trace = events; control = cr },
      i,
      c,
      λ mem e. rw (e₁, setup_lem b.cpu 30 (touched t₁ m), e₃, e₄, e) refl,
    )

pub fit_load-Loads :
    (b : Build) (dst ep : ℕ) (src dtb : Reply) (m : Machine)
    → Answers b.decoder
    → Fits b dtb
    → Loads b m ep dtb (fit_load b dst ep src dtb m)
fit_load-Loads b dst ep src dtb m answers fits =
    let (t, i, c, loads) = fit_load-copies b dst ep src dtb m answers in
    let (mem, e, copied) =
      memcpy-Copied t.memory b.workspace dtb.ptr dtb.len fits.source fits.target fits.apart in
    record {
      end = record (touched t m) { memory = mem; kernel_entry = ep; kernel_p2 = b.workspace };
      before = t.memory;
      ends = loads mem e;
      entry = refl;
      arch = refl;
      params = refl;
      icache_off = i;
      dcache_off = c;
      copied = copied;
    }
