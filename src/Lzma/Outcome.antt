-- ===== src/Lzma/Outcome.antt =====
-- What `lzma_gogogo` of src/lzma.c makes of the answers of the LZMA SDK.
use qcom_ipq_aux_loader.Base.{
  ℕ, zero, suc, ◌+◌, ◌-◌, ◌^◌, ◌<◌, ◌≤◌, ◌≡◌, refl, ap, [], ◌∷◌, ◌++◌, codes, add32, u32, ◌==◌,
  if◌then◌else◌, Bool-cases, inl, inr, arith,
}
use qcom_ipq_aux_loader.Base.Int.{ℤ, pos, minus}
use qcom_ipq_aux_loader.Machine.Memory.{Memory, load8, load32}
use qcom_ipq_aux_loader.Machine.Memory.Laws.{load8-lt, load32-lt}
use qcom_ipq_aux_loader.Machine.Run.{Machine, ok}
use qcom_ipq_aux_loader.Machine.Console.{say}
use qcom_ipq_aux_loader.Machine.Console.Says.{Says, print-Says, print-then, say-append}
use qcom_ipq_aux_loader.Printf.Format.{word}
use qcom_ipq_aux_loader.Printf.Format.Typed.{typed}
use qcom_ipq_aux_loader.Lzma.{
  Decoder, Decoded, Properties, Stream, Head, print_bytes, decode_error, lzma_decompress, report,
  lzma_gogogo,
}
use qcom_ipq_aux_loader.Lzma.Header.{init_props_lem}
use qcom_ipq_aux_loader.Lzma.Returns.{Answers}

print_bytes-Says : (p left : ℕ) (m : Machine) → Says tt m (print_bytes p left m)
unfolding print_bytes typed
print_bytes-Says p zero m = ([], refl)
print_bytes-Says p (suc left) m =
    print-then (codes "%02x ") (word (load8 m.memory p) ∷ []) _ _ m refl
      (omega (arith, load8-lt m.memory p), tt) λ s. print_bytes-Says (add32 p 1) left (say s m)

decode_error-Says :
    (s : Stream) (outsize : ℕ) (d : Decoded) (m : Machine)
    → outsize < 2 ^ 32
    → d.result < 2 ^ 32
    → d.in_processed < 2 ^ 32
    → d.out_processed < 2 ^ 32
    → Says tt m (decode_error s outsize d m)
unfolding decode_error typed
decode_error-Says s outsize d m a b c e =
    print-then (codes "LzmaDecode error %d at %08x, osize:%d ip:%d op:%d\n")
      (word d.result
        ∷ word (add32 s.lzma_data d.in_processed)
        ∷ word outsize
        ∷ word d.in_processed
        ∷ word d.out_processed
        ∷ [])
      _ _ m refl (b, (omega arith, (a, (c, (e, tt)))))
      λ t.
        let (u, f) = print_bytes-Says (add32 s.lzma_data d.in_processed) 16 (say t m) in
        let (v, g) = print-Says (codes "\n") [] refl tt (say u (say t m)) in
        (u ++ v, rw (f, g) (ap (ok tt) (say-append u v (say t m))))

-- 0 for a result of LZMA_RESULT_OK, and -2 for every other.
abbrev pub returned : ℕ → ℤ
returned res = if res == 0 then pos 0 else minus 2

report-Says : (res : ℕ) → res < 2 ^ 32 → (m : Machine) → Says (returned res) m (report res m)
unfolding report typed
report-Says res h m = elim (Bool-cases (res == 0)) [
  | inl e ↦ rw e (print-then (codes "Done\n") [] _ _ m refl tt λ s. ([], refl))
  | inr e ↦ rw e (
      print-then (codes "failed, ") [] _ _ m refl tt λ s. elim (Bool-cases (res == 1)) [
        | inl f ↦ rw f (print-then (codes "data error!\n") [] _ _ _ refl tt λ t. ([], refl))
        | inr f ↦ rw f (
            print-then (codes "unknown error %d!\n") (word res ∷ []) _ _ _ refl (h, tt)
              λ t. ([], refl))
      ])
]

-- What stands at the head of a stream of `size` bytes.
abbrev head_of : Memory → ℕ → ℕ → Head
head_of mem p size = record {
  props =
      load8 mem p
      ∷ load8 mem (p + 1)
      ∷ load8 mem (p + 2)
      ∷ load8 mem (p + 3)
      ∷ load8 mem (p + 4)
      ∷ [];
  outsize = load32 mem (p + 5);
  rest = record { lzma_data = p + 13; lzma_datasize = size - 13 };
}

-- The call of the decoder for a stream at `p`: its properties from the first five bytes, the size
-- of the output from the word behind them, and the packed bytes from byte 13 on.
abbrev pub properties_of : Decoder → Memory → ℕ → ℕ × Properties
properties_of decoder mem p = decoder.properties (
    load8 mem p
    ∷ load8 mem (p + 1)
    ∷ load8 mem (p + 2)
    ∷ load8 mem (p + 3)
    ∷ load8 mem (p + 4)
    ∷ [])

abbrev pub decoded : Decoder → Memory → ℕ → ℕ → ℕ → ℕ → Decoded
decoded decoder mem workspace target p size =
    decoder.decode (properties_of decoder mem p).1 mem workspace (p + 13) (size - 13) target
      (load32 mem (p + 5))

-- The value returned, and the memory left, by what the two functions of the SDK answer.
abbrev pub outcome : Decoder → Memory → ℕ → ℕ → ℕ → ℕ → ℤ × Memory
outcome decoder mem workspace target p size =
    if (properties_of decoder mem p).0 == 0
    then (
      returned (decoded decoder mem workspace target p size).result,
      (decoded decoder mem workspace target p size).memory,
    )
    else (minus 1, mem)

decompress-Says :
    (decoder : Decoder) (workspace : ℕ) (properties : Properties) (h : Head) (target : ℕ)
    (m : Machine) (d : Decoded)
    → Answers decoder
    → h.outsize < 2 ^ 32
    → decoder.decode properties m.memory workspace h.rest.lzma_data h.rest.lzma_datasize target
        h.outsize
      ≡ d
    → Says d.result
        (record m { memory = d.memory })
        (lzma_decompress decoder workspace properties h target m)
unfolding lzma_decompress
decompress-Says decoder workspace properties h target m d answers small e =
    let lt =
      answers.result_lt properties m.memory workspace h.rest.lzma_data h.rest.lzma_datasize target
        h.outsize in
    let in_lt =
      answers.in_lt properties m.memory workspace h.rest.lzma_data h.rest.lzma_datasize target
        h.outsize in
    let out_lt =
      answers.out_lt properties m.memory workspace h.rest.lzma_data h.rest.lzma_datasize target
        h.outsize in
    elim (Bool-cases (d.result == 0)) [
      | inl f ↦ ([], rw (e, f) refl)
      | inr f ↦
          let (s, g) =
            decode_error-Says h.rest h.outsize d (record m { memory = d.memory }) small (rw e at lt)
              (rw e at in_lt) (rw e at out_lt) in
          (s, rw (e, f, g) refl)
    ]

-- For a stream of at least 13 bytes below the end of the address space, and whatever words the SDK
-- answers: `lzma_gogogo` asks it for properties with the first five bytes. If it refuses them, -1
-- is returned and the memory is as before; otherwise it is given the bytes from byte 13 on, the
-- little-endian word before them but four as the size of the output, the workspace and the target,
-- the memory is the one it leaves, and 0 is returned if it says so, and -2 otherwise. In every case
-- that word is stored as the output's size, and else only text is printed.
pub lzma_gogogo_lem :
    (decoder : Decoder) (workspace target p size : ℕ) (m : Machine)
    → Answers decoder
    → p + 13 < 2 ^ 32
    → 13 ≤ size
    → size < 2 ^ 32
    → Says
        (load32 m.memory (p + 5), (outcome decoder m.memory workspace target p size).0)
        (record m { memory = (outcome decoder m.memory workspace target p size).1 })
        (lzma_gogogo decoder workspace target p size m)
unfolding lzma_gogogo typed
lzma_gogogo_lem decoder workspace target p size m answers inside long small =
    let word_size : u32 size ≡ size = omega arith in
    let head = init_props_lem m.memory p size inside long small in
    let (ok_props, properties) = properties_of decoder m.memory p in
    elim (Bool-cases (ok_props == 0)) [
      | inl e ↦
          let d = decoded decoder m.memory workspace target p size in
          let (s, f) =
            decompress-Says decoder workspace properties (head_of m.memory p size) target m d
              answers (load32-lt m.memory (p + 5)) refl in
          let lt =
            answers.result_lt properties m.memory workspace (p + 13) (size - 13) target
              (load32 m.memory (p + 5)) in
          let after = say s (record m { memory = d.memory }) in
          let (t, g) = report-Says d.result lt after in
          (
            s ++ t,
            rw (word_size, head, e, f, g)
                (ap (ok (load32 m.memory (p + 5), returned d.result))
                  (say-append s t (record m { memory = d.memory }))),
          )
      | inr e ↦
          let (s, f) = print-Says (codes "Incorrect LZMA stream properties!\n") [] refl tt m in
          (s, rw (word_size, head, e, f) refl)
    ]
