-- ===== src/Loader/Fit/Unpacks.antt =====
-- `handle_fit_header` of src/loader.c with a decoder that unpacks the kernel.
use qcom_ipq_aux_loader.Base.{
  ℕ, ◌+◌, ◌^◌, ◌≤◌, ◌<◌, List, [], ◌∷◌, ◌++◌, codes, refl, ◌∙◌, ◌≡◌, ◌⊎◌, arith, u32, add32, sub32,
  lt→ltb,
}
use qcom_ipq_aux_loader.Base.Digits.{bit}
use qcom_ipq_aux_loader.Base.Int.{ℤ, pos}
use qcom_ipq_aux_loader.Machine.Memory.{Memory, load8}
use qcom_ipq_aux_loader.Machine.Run.{Machine, Run, ok, wrote}
use qcom_ipq_aux_loader.Machine.Console.{say}
use qcom_ipq_aux_loader.Machine.Console.Says.{print-Says}
use qcom_ipq_aux_loader.Printf.Format.Typed.{typed}
use qcom_ipq_aux_loader.Fdt.{Reply}
use qcom_ipq_aux_loader.Lzma.{
  Decoder, Decoded, Head, lzma_init_props, lzma_decompress, report, lzma_gogogo,
}
use qcom_ipq_aux_loader.Drivers.Watchdog.{wdt}
use qcom_ipq_aux_loader.Drivers.Watchdog.Sequence.{setup_events, setup_lem}
use qcom_ipq_aux_loader.Cache.Mmu.Outside.{enable_caches_outside}
use qcom_ipq_aux_loader.Cache.Control.Cleanup.{cleanup_off}
use qcom_ipq_aux_loader.Loader.Given.{Build, copy}
use qcom_ipq_aux_loader.Loader.Memcpy.Copies.{memcpy-Copied}
use qcom_ipq_aux_loader.Loader.Fit.Loads.{Fits}
use qcom_ipq_aux_loader.Loader.Fit.{uncompress, fit_load}

-- What `LzmaDecode` is called with.
module _ (decoder : Decoder) (workspace dst : ℕ) (src : Reply) (mem : Memory) where
  abbrev pub head : Head
  head = lzma_init_props mem (record { lzma_data = src.ptr; lzma_datasize = u32 src.len })

  abbrev pub decoded : Decoded
  decoded =
      decoder.decode (decoder.properties head.props).1 mem workspace head.rest.lzma_data
        head.rest.lzma_datasize dst head.outsize

  -- The stream is accepted and unpacked to a text of `size` bytes at `dst`, and nothing else is
  -- written but the decoder's `probs` bytes of the workspace.
  pub record Decodes (plain : ℕ → ℕ) (size probs : ℕ) : Type 0 where
    pub properties_ok : (decoder.properties head.props).0 ≡ 0
    pub result_ok : decoded.result ≡ 0
    pub written : (j : ℕ) → j < size → load8 decoded.memory (dst + j) ≡ plain j
    pub kept :
        (a : ℕ)
        → a < 2 ^ 32
        → (a < dst) ⊎ (dst + size ≤ a)
        → (a < workspace) ⊎ (workspace + probs ≤ a)
        → load8 decoded.memory a ≡ load8 mem a

-- The decoder's contract for a stream: in every memory with the stream's bytes it unpacks it.
abbrev pub Unpacks : Build → Memory → ℕ → Reply → (ℕ → ℕ) → ℕ → ℕ → Type 0
Unpacks b mem dst src plain size probs =
    (mem' : Memory)
    → ((j : ℕ) → j < src.len → load8 mem' (src.ptr + j) ≡ load8 mem (src.ptr + j))
    → Decodes b.decoder b.workspace dst src mem' plain size probs

gogogo-Decodes :
    (decoder : Decoder) (workspace dst : ℕ) (src : Reply) (plain : ℕ → ℕ) (size probs : ℕ)
    (m : Machine)
    → Decodes decoder workspace dst src m.memory plain size probs
    → (s : List ℕ) × (lzma_gogogo decoder workspace dst src.ptr src.len m
        ≡ ok
            ((head decoder workspace dst src m.memory).outsize, pos 0)
            (say s (record m { memory = (decoded decoder workspace dst src m.memory).memory })))
unfolding lzma_gogogo lzma_decompress report typed
gogogo-Decodes decoder workspace dst src plain size probs m h =
    let after = record m { memory = (decoded decoder workspace dst src m.memory).memory } in
    let (s, e) = print-Says (codes "Done\n") [] refl tt after in
    (s, rw (h.properties_ok, h.result_ok, e) refl)

-- The kernel lies below its data, and the ranges that are read and written do not meet.
pub record HasRoom (b : Build) (dst : ℕ) (src dtb : Reply) (size probs : ℕ) : Type 0 where
  pub below : dst < src.ptr
  pub stream_fits : src.ptr + src.len ≤ 2 ^ 32
  pub table_fits : b.page_table + 16384 ≤ 2 ^ 32
  pub stream_table : (src.ptr + src.len ≤ b.page_table) ⊎ (b.page_table + 16384 ≤ src.ptr)
  pub blob_table : (dtb.ptr + dtb.len ≤ b.page_table) ⊎ (b.page_table + 16384 ≤ dtb.ptr)
  pub blob_kernel : (dtb.ptr + dtb.len ≤ dst) ⊎ (dst + size ≤ dtb.ptr)
  pub blob_probs : (dtb.ptr + dtb.len ≤ b.workspace) ⊎ (b.workspace + probs ≤ dtb.ptr)
  pub kernel_fits : dst + size ≤ 2 ^ 32
  pub kernel_blob : (dst + size ≤ b.workspace) ⊎ (b.workspace + dtb.len ≤ dst)
  pub fits : Fits b dtb

-- The unpacked kernel stands at its load address and the device tree's blob of the image in the
-- workspace; both caches are off.
pub record Unpacked (b : Build) (m : Machine) (dst ep : ℕ) (dtb : Reply) (plain : ℕ → ℕ) (size : ℕ)
    (r : Run ℤ) : Type 0 where
  pub end : Machine
  pub ends : r ≡ ok (pos 0) end
  pub entry : end.kernel_entry ≡ ep
  pub arch : end.kernel_p1 ≡ m.kernel_p1
  pub params : end.kernel_p2 ≡ b.workspace
  pub kernel : (j : ℕ) → j < size → load8 end.memory (dst + j) ≡ plain j
  pub blob :
      (j : ℕ) → j < dtb.len → load8 end.memory (b.workspace + j) ≡ load8 m.memory (dtb.ptr + j)
  pub icache_off : bit 12 end.control ≡ 0
  pub dcache_off : bit 2 end.control ≡ 0

pub fit_load-Unpacked :
    (b : Build) (m : Machine) (dst ep : ℕ) (src dtb : Reply) (plain : ℕ → ℕ) (size probs : ℕ)
    → HasRoom b dst src dtb size probs
    → Unpacks b m.memory dst src plain size probs
    → Unpacked b m dst ep dtb plain size (fit_load b dst ep src dtb m)
unfolding fit_load uncompress copy typed
fit_load-Unpacked b m dst ep src dtb plain size probs room unpacks =
    let (s, e₁) = print-Says (codes "Extracting LZMA kernel...") [] refl tt m in
    let armed : Machine = record (say s m) {
      trace = setup_events b.cpu 30 ++ wrote (wdt b.cpu).en 0 ∷ (say s m).trace;
    } in
    let ranged : Machine = record armed {
      bi_dram_0_start = dst;
      bi_dram_0_size = add32 (sub32 src.ptr dst) 0x200_0000;
    } in
    let small : dst < 2 ^ 32 = omega (arith, room.below, room.stream_fits) in
    let (events, cr, mem, e₂, keeps) =
      enable_caches_outside b.page_table ranged room.table_fits small in
    let cached : Machine = record ranged { trace = events; control = cr; memory = mem } in
    let decodes = unpacks mem λ j lt.
      keeps (src.ptr + j) (omega (arith, room.stream_fits)) (omega (arith, room.stream_table)) in
    let (t, e₃) = gogogo-Decodes b.decoder b.workspace dst src plain size probs cached decodes in
    let d = decoded b.decoder b.workspace dst src mem in
    let (later, cr', e₄, i, c, _) =
      cleanup_off b.cpu (say t (record cached { memory = d.memory })) in
    let (mem', e₅, copied) =
      memcpy-Copied d.memory b.workspace dtb.ptr dtb.len room.fits.source room.fits.target
        room.fits.apart in
    record {
      end = record cached {
        trace = later;
        control = cr';
        memory = mem';
        kernel_entry = ep;
        kernel_p2 = b.workspace;
      };
      ends =
          rw (e₁, setup_lem b.cpu 30 (say s m), lt→ltb dst src.ptr room.below, e₂, e₃, e₄, e₅) refl;
      entry = refl;
      arch = refl;
      params = refl;
      kernel = λ j lt.
          copied.outside (dst + j) (omega (arith, room.kernel_fits))
            (omega (arith, room.kernel_blob))
          ∙ decodes.written j lt;
      blob = λ j lt.
          copied.inside j lt
          ∙ decodes.kept (dtb.ptr + j) (omega (arith, room.fits.source))
              (omega (arith, room.blob_kernel)) (omega (arith, room.blob_probs))
          ∙ keeps (dtb.ptr + j) (omega (arith, room.fits.source)) (omega (arith, room.blob_table));
      icache_off = i;
      dcache_off = c;
    }
