-- ===== src/Lzma/Returns.antt =====
-- The runs of src/lzma.c.
use qcom_ipq_aux_loader.Base.{
  ℕ, zero, suc, ◌^◌, ◌<◌, ◌≡◌, refl, List, [], ◌∷◌, codes, add32, u32, ◌==◌, Bool-cases, inl, inr,
  arith,
}
use qcom_ipq_aux_loader.Machine.Memory.{Memory, load8}
use qcom_ipq_aux_loader.Machine.Memory.Laws.{load8-lt}
use qcom_ipq_aux_loader.Machine.Run.{Machine, ok}
use qcom_ipq_aux_loader.Base.Int.{minus}
use qcom_ipq_aux_loader.Machine.Touches.{Touched, touched, Touches, Touches-then, print-Touches}
use qcom_ipq_aux_loader.Printf.Format.{word}
use qcom_ipq_aux_loader.Printf.Format.Typed.{typed}
use qcom_ipq_aux_loader.Lzma.{
  Decoder, Decoded, Properties, Stream, Head, lzma_init_props, print_bytes, decode_error,
  lzma_decompress, report, lzma_gogogo,
}

-- What the decoder answers are 32-bit words.
pub record Answers (decoder : Decoder) : Type 0 where
  pub properties_lt : (bytes : List ℕ) → (decoder.properties bytes).0 < 2 ^ 32
  pub result_lt :
      (p : Properties) (mem : Memory) (a b c d e : ℕ)
      → (decoder.decode p mem a b c d e).result < 2 ^ 32
  pub in_lt :
      (p : Properties) (mem : Memory) (a b c d e : ℕ)
      → (decoder.decode p mem a b c d e).in_processed < 2 ^ 32
  pub out_lt :
      (p : Properties) (mem : Memory) (a b c d e : ℕ)
      → (decoder.decode p mem a b c d e).out_processed < 2 ^ 32

print_bytes-Touches :
    (p left : ℕ) (m : Machine) (t : Touched) → Touches m (print_bytes p left (touched t m))
unfolding print_bytes typed
print_bytes-Touches p zero m t = (tt, t, refl)
print_bytes-Touches p (suc left) m t =
    Touches-then _ _ m
      (print-Touches (codes "%02x ") (word (load8 t.memory p) ∷ []) refl
        (omega (arith, load8-lt t.memory p), tt) m t)
      λ u t'. print_bytes-Touches (add32 p 1) left m t'

decode_error-Touches :
    (s : Stream) (outsize : ℕ) (d : Decoded) (m : Machine) (t : Touched)
    → outsize < 2 ^ 32
    → d.result < 2 ^ 32
    → d.in_processed < 2 ^ 32
    → d.out_processed < 2 ^ 32
    → Touches m (decode_error s outsize d (touched t m))
unfolding decode_error typed
decode_error-Touches s outsize d m t a b c e =
    Touches-then _ _ m
      (print-Touches (codes "LzmaDecode error %d at %08x, osize:%d ip:%d op:%d\n")
        (word d.result
          ∷ word (add32 s.lzma_data d.in_processed)
          ∷ word outsize
          ∷ word d.in_processed
          ∷ word d.out_processed
          ∷ [])
        refl (b, (omega arith, (a, (c, (e, tt))))) m t)
      λ u t₁.
        Touches-then _ _ m (print_bytes-Touches (add32 s.lzma_data d.in_processed) 16 m t₁)
          λ v t₂. print-Touches (codes "\n") [] refl tt m t₂

report-Touches :
    (res : ℕ) → res < 2 ^ 32 → (m : Machine) (t : Touched) → Touches m (report res (touched t m))
unfolding report typed
report-Touches res h m t = elim (Bool-cases (res == 0)) [
  | inl e ↦
      rw e
        (Touches-then _ _ m (print-Touches (codes "Done\n") [] refl tt m t) λ u t₁. (_, t₁, refl))
  | inr e ↦ rw e (
      Touches-then _ _ m (print-Touches (codes "failed, ") [] refl tt m t) λ u t₁.
        elim (Bool-cases (res == 1)) [
          | inl f ↦ rw f (
              Touches-then _ _ m (print-Touches (codes "data error!\n") [] refl tt m t₁)
                λ u t₂. (_, t₂, refl))
          | inr f ↦ rw f (
              Touches-then _ _ m
                (print-Touches (codes "unknown error %d!\n") (word res ∷ []) refl (h, tt) m t₁)
                λ u t₂. (_, t₂, refl))
        ])
]

outsize-lt : (mem : Memory) (s : Stream) → (lzma_init_props mem s).outsize < 2 ^ 32
unfolding lzma_init_props
outsize-lt mem s = omega arith

module _ (decoder : Decoder) (answers : Answers decoder) where
  decompress-Touches :
      (workspace : ℕ) (properties : Properties) (h : Head) (out_stream : ℕ) (m : Machine)
      (t : Touched)
      → h.outsize < 2 ^ 32
      → (res : ℕ) × (res < 2 ^ 32)
        × (t' : Touched) × (lzma_decompress decoder workspace properties h out_stream (touched t m)
            ≡ ok res (touched t' m))
  unfolding lzma_decompress
  decompress-Touches workspace properties h out m t small =
      let res_lt =
        answers.result_lt properties t.memory workspace h.rest.lzma_data h.rest.lzma_datasize out
          h.outsize in
      let in_lt =
        answers.in_lt properties t.memory workspace h.rest.lzma_data h.rest.lzma_datasize out
          h.outsize in
      let out_lt =
        answers.out_lt properties t.memory workspace h.rest.lzma_data h.rest.lzma_datasize out
          h.outsize in
      let d =
        decoder.decode properties t.memory workspace h.rest.lzma_data h.rest.lzma_datasize out
          h.outsize in
      let t₁ : Touched = record t { memory = d.memory } in
      elim (Bool-cases (d.result == 0)) [
        | inl e ↦ (d.result, res_lt, t₁, rw e refl)
        | inr e ↦
            let (u, t₂, f) =
              decode_error-Touches h.rest h.outsize d m t₁ small res_lt in_lt out_lt in
            (d.result, res_lt, t₂, rw (e, f) refl)
      ]

  pub gogogo-Touches :
      (workspace kernel_la stream size : ℕ) (m : Machine) (t : Touched)
      → Touches m (lzma_gogogo decoder workspace kernel_la stream size (touched t m))
  unfolding lzma_gogogo typed
  gogogo-Touches workspace la stream size m t =
      let h = lzma_init_props t.memory (record { lzma_data = stream; lzma_datasize = u32 size }) in
      elim (Bool-cases ((decoder.properties h.props).0 == 0)) [
        | inl e ↦
            let (res, lt, t₁, f) =
              decompress-Touches workspace (decoder.properties h.props).1 h la m t
                (outsize-lt t.memory _) in
            let (ret, t₂, g) = report-Touches res lt m t₁ in
            ((h.outsize, ret), t₂, rw (e, f, g) refl)
        | inr e ↦
            let (u, t₁, f) =
              print-Touches (codes "Incorrect LZMA stream properties!\n") [] refl tt m t in
            ((h.outsize, minus 1), t₁, rw (e, f) refl)
      ]
