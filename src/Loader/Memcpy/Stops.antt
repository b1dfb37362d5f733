-- ===== src/Loader/Memcpy/Stops.antt =====
-- The end of `my_memcpy` of src/loader.c, whatever its ranges hold.
use qcom_ipq_aux_loader.Base.{
  ℕ, zero, suc, ◌+◌, ◌^◌, ◌≤◌, ◌<◌, ◌≡◌, refl, some, arith, add32, leb, ltb, Bool-cases, inl, inr,
}
use qcom_ipq_aux_loader.Machine.Memory.{Memory, load8, store8, load32, store32}
use qcom_ipq_aux_loader.Loader.Memcpy.{Cursor, copy_words, copy_bytes, my_memcpy}

copy_words-stops :
    (end rounds : ℕ) (c : Cursor)
    → end + 4 < 2 ^ 32
    → c.src ≤ end
    → end < c.src + rounds
    → (c' : Cursor) × (copy_words end rounds c ≡ some c') × (c.src ≤ c'.src) × (c'.src ≤ end)
unfolding copy_words
copy_words-stops end zero c small before enough = absurd (omega arith)
copy_words-stops end (suc rounds) c small before enough =
    let next : add32 c.src 4 ≡ c.src + 4 = omega arith in
    elim (Bool-cases (leb (add32 c.src 4) end)) [
      | inl more ↦
          let (c', e, later, inside) =
            copy_words-stops end rounds
              (record {
                src = add32 c.src 4;
                dst = add32 c.dst 4;
                mem = store32 c.mem c.dst (load32 c.mem c.src);
              })
              small (ground arith) (omega arith) in
          (c', rw more e, omega arith, inside)
      | inr last ↦ (c, rw last refl, omega arith, before)
    ]

copy_bytes-stops :
    (end rounds : ℕ) (c : Cursor)
    → end + 4 < 2 ^ 32
    → c.src ≤ end
    → end < c.src + rounds
    → (c' : Cursor) × (copy_bytes end rounds c ≡ some c')
unfolding copy_bytes
copy_bytes-stops end zero c small before enough = absurd (omega arith)
copy_bytes-stops end (suc rounds) c small before enough =
    let next : add32 c.src 1 ≡ c.src + 1 = omega arith in
    elim (Bool-cases (ltb c.src end)) [
      | inl more ↦
          let (c', e) =
            copy_bytes-stops end rounds
              (record {
                src = add32 c.src 1;
                dst = add32 c.dst 1;
                mem = store8 c.mem c.dst (load8 c.mem c.src);
              })
              small (ground arith) (omega arith) in
          (c', rw more e)
      | inr last ↦ (c, rw last refl)
    ]

-- Where the source does not reach the end of the address space, `my_memcpy` returns.
pub memcpy-stops :
    (mem : Memory) (dst src n : ℕ)
    → src + n + 4 < 2 ^ 32
    → (mem' : Memory) × (my_memcpy mem dst src n ≡ some mem')
unfolding my_memcpy
memcpy-stops mem dst src n fits =
    let end : add32 src n ≡ src + n = omega arith in
    let (c, e, later, inside) =
      copy_words-stops (src + n) (n + 1) (record { src = src; dst = dst; mem = mem }) fits
        (omega arith) (omega arith) in
    let (c', f) = copy_bytes-stops (src + n) (n + 1) c fits inside (omega arith) in
    (c'.mem, ground arith)
