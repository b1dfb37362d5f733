-- ===== src/Printf/Digits.antt =====
-- `my_dec2str` and `my_hex2str`: the digits of a number, lowest first. `none` is a loop that is
-- not finished within its rounds.
pub mod Division
pub mod Numeral
use qcom_ipq_aux_loader.Base.{
  ℕ, zero, suc, ◌+◌, ◌-◌, ◌*◌, ◌%◌, ◌^◌, Bool, Option, none, some, List, [], ◌∷◌, bit_and, u32, shr,
  ltb, leb, ◌==◌, if◌then◌else◌,
}

-- wr2p
unfoldable pub wr2p : Bool → ℕ → ℕ
wr2p upcase tmp =
    if leb tmp 9 then b'0' + tmp else if upcase then b'A' + tmp - 10 else b'a' + tmp - 10

-- `A - 10 * Q` in 64 bits, kept in an `unsigned`.
abbrev pub remainder : ℕ → ℕ → ℕ
remainder a q = u32 ((a + 2 ^ 64 - 10 * q) % 2 ^ 64)

-- The estimate of A / 10 by shifts and sums, in 64 bits.
unfoldable pub tenth : ℕ → ℕ
tenth a =
    let q₀ = shr (shr a 1 + a) 1 in
    let q₁ = shr q₀ 4 + q₀ in let q₂ = shr q₁ 8 + q₁ in shr (shr q₂ 16 + q₂) 3

pub record Split : Type 0 where
  pub r : ℕ
  pub n : ℕ

-- One round of the loop: the digit R and the number N that is left.
unfoldable pub split10 : ℕ → Split
split10 a =
    let q = tenth a in
    let r = remainder a q in
    if ltb 9 r
    then record { r = remainder a (q + 1); n = u32 (q + 1) }
    else record { r = r; n = u32 q }

abbrev pub cons : ℕ → Option (List ℕ) → Option (List ℕ)
cons c none = none
cons c (some s) = some (c ∷ s)

unfoldable pub dec_loop : Bool → ℕ → ℕ → Option (List ℕ)
dec_loop upcase zero a = none
dec_loop upcase (suc rounds) a =
    let s = split10 a in
    let rest = dec_loop upcase rounds s.n in
    if ltb 0 a then cons (wr2p upcase s.r) rest else some []

-- 4294967295 has ten digits, and an eleventh round leaves the loop.
unfoldable pub my_dec2str : ℕ → Bool → Option (List ℕ)
my_dec2str a upcase =
    if ltb a 10
    then some (wr2p upcase a ∷ [])
    else if a == 10
    then some (wr2p upcase 0 ∷ wr2p upcase 1 ∷ [])
    else dec_loop upcase 11 a

unfoldable pub hex_loop : Bool → ℕ → ℕ → Option (List ℕ)
hex_loop upcase zero a = none
hex_loop upcase (suc rounds) a =
    let rest = hex_loop upcase rounds (shr a 4) in
    if ltb 0 a then cons (wr2p upcase (bit_and a 0xf)) rest else some []

-- Eight digits, and a ninth round that leaves the loop.
unfoldable pub my_hex2str : ℕ → Bool → Option (List ℕ)
my_hex2str a upcase = if ltb a 16 then some (wr2p upcase a ∷ []) else hex_loop upcase 9 a
