-- ===== src/Lzma.antt =====
-- src/lzma.c. The LZMA SDK's two functions are parameters: what they return, and the memory that
-- `LzmaDecode` leaves. An `int` result is its bit pattern. The sum of four `lzma_get_byte` calls
-- is evaluated from left to right, an order that C does not promise.
pub mod Header
pub mod Returns
pub mod Outcome
use qcom_ipq_aux_loader.Base.{
  ℕ, zero, suc, List, [], ◌∷◌, codes, add32, sub32, u32, shl32, ◌==◌, if◌then◌else◌,
}
use qcom_ipq_aux_loader.Base.Int.{ℤ, pos, minus}
use qcom_ipq_aux_loader.Machine.Memory.{Memory, load8}
use qcom_ipq_aux_loader.Machine.Run.{M, ◌>>=◌, ◌>>◌, pure, get_memory, set_memory}
use qcom_ipq_aux_loader.Machine.Console.{print}
use qcom_ipq_aux_loader.Printf.Format.{word}

-- CLzmaProperties
pub record Properties : Type 0 where
  pub lc : ℕ
  pub lp : ℕ
  pub pb : ℕ

-- What `LzmaDecode` returns and stores.
pub record Decoded : Type 0 where
  pub result : ℕ
  pub in_processed : ℕ
  pub out_processed : ℕ
  pub memory : Memory

pub record Decoder : Type 0 where
  -- LzmaDecodeProperties(&properties, bytes, 5)
  pub properties : List ℕ → ℕ × Properties
  -- LzmaDecode: memory, probs, inStream, inSize, outStream, outSize
  pub decode : Properties → Memory → ℕ → ℕ → ℕ → ℕ → ℕ → Decoded

abbrev pub lzma_result_ok : ℕ
lzma_result_ok = 0

abbrev pub lzma_result_data_error : ℕ
lzma_result_data_error = 1

abbrev pub lzma_properties_size : ℕ
lzma_properties_size = 5

-- `lzma_data` and `lzma_datasize`.
pub record Stream : Type 0 where
  pub lzma_data : ℕ
  pub lzma_datasize : ℕ

unfoldable pub lzma_get_byte : Memory → Stream → ℕ × Stream
lzma_get_byte mem s = (
  load8 mem s.lzma_data,
  record { lzma_data = add32 s.lzma_data 1; lzma_datasize = sub32 s.lzma_datasize 1 },
)

unfoldable pub get_bytes : Memory → ℕ → Stream → List ℕ × Stream
get_bytes mem zero s = ([], s)
get_bytes mem (suc n) s =
    let (c, s₁) = lzma_get_byte mem s in let (cs, s₂) = get_bytes mem n s₁ in (c ∷ cs, s₂)

-- What is read from the head of the stream, and the stream behind it.
pub record Head : Type 0 where
  pub props : List ℕ
  pub outsize : ℕ
  pub rest : Stream

unfoldable pub lzma_init_props : Memory → Stream → Head
lzma_init_props mem s =
    let (props, s₁) = get_bytes mem lzma_properties_size s in
    let (b₀, s₂) = lzma_get_byte mem s₁ in
    let (b₁, s₃) = lzma_get_byte mem s₂ in
    let (b₂, s₄) = lzma_get_byte mem s₃ in
    let (b₃, s₅) = lzma_get_byte mem s₄ in
    record {
      props = props;
      outsize = add32 (add32 (add32 b₀ (shl32 b₁ 8)) (shl32 b₂ 16)) (shl32 b₃ 24);
      rest = (get_bytes mem 4 s₅).1;
    }

-- `for (i = 0; i < 16; i++) printf("%02x ", lzma_data[ip + i]);`, with `left` rounds left.
unfoldable pub print_bytes : ℕ → ℕ → M (Unit {0})
print_bytes p zero = pure tt
print_bytes p (suc left) = do
  mem ← get_memory
  print (codes "%02x ") (word (load8 mem p) ∷ [])
  print_bytes (add32 p 1) left

unfoldable pub decode_error : Stream → ℕ → Decoded → M (Unit {0})
decode_error s outsize d = do
  print (codes "LzmaDecode error %d at %08x, osize:%d ip:%d op:%d\n") (
      word d.result
      ∷ word (add32 s.lzma_data d.in_processed)
      ∷ word outsize
      ∷ word d.in_processed
      ∷ word d.out_processed
      ∷ [])
  print_bytes (add32 s.lzma_data d.in_processed) 16
  print (codes "\n") []

-- `workspace` is the address of the array that the linker script puts behind the image.
unfoldable pub lzma_decompress : Decoder → ℕ → Properties → Head → ℕ → M ℕ
lzma_decompress decoder workspace properties h out_stream = do
  mem ← get_memory
  let d =
      decoder.decode properties mem workspace h.rest.lzma_data h.rest.lzma_datasize out_stream
        h.outsize
  set_memory d.memory
  if d.result == lzma_result_ok then pure tt else decode_error h.rest h.outsize d
  pure d.result

-- What is said and returned after `lzma_decompress`.
unfoldable pub report : ℕ → M ℤ
report res =
    if res == lzma_result_ok
    then print (codes "Done\n") [] >> pure (pos 0)
    else print (codes "failed, ") []
      >> (if res == lzma_result_data_error
          then print (codes "data error!\n") [] >> pure (minus 2)
          else print (codes "unknown error %d!\n") (word res ∷ []) >> pure (minus 2))

-- The output size, which is stored through `lzma_outsize_ret`, and the returned value.
unfoldable pub lzma_gogogo : Decoder → ℕ → ℕ → ℕ → ℕ → M (ℕ × ℤ)
lzma_gogogo decoder workspace kernel_la stream datasize = do
  mem ← get_memory
  let h = lzma_init_props mem (record { lzma_data = stream; lzma_datasize = u32 datasize })
  let (res, properties) = decoder.properties h.props
  ret ←
      if res == lzma_result_ok
      then lzma_decompress decoder workspace properties h kernel_la >>= report
      else print (codes "Incorrect LZMA stream properties!\n") [] >> pure (minus 1)
  pure (h.outsize, ret)
