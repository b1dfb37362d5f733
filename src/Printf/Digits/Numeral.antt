-- ===== src/Printf/Digits/Numeral.antt =====
-- Numerals, and the loops of src/printf.c that write them.
use qcom_ipq_aux_loader.Base.{
  ℕ, zero, suc, ◌+◌, ◌-◌, ◌*◌, ◌/◌, ◌%◌, ◌^◌, ◌≤◌, ◌<◌, ◌≡◌, refl, ap, lt→ltb, Option, Bool, true,
  false, some, List, [], ◌∷◌, arith, length, All, leb, if◌then◌else◌,
}
use native.Mathlib.Nat.{
  pow-suc, pow-zero, mod-lt, div-add-mod, div-lt_iff_lt-mul, div-le_self, le_trans,
}
use native.Mathlib.Decide.{dec_lt}
use qcom_ipq_aux_loader.Base.Bits.{bit_and_low}
use qcom_ipq_aux_loader.Printf.Digits.{cons, wr2p, dec_loop, my_dec2str, hex_loop, my_hex2str}
use qcom_ipq_aux_loader.Printf.Digits.Division.{split10_lem}

abbrev pub digit_value : ℕ → ℕ
digit_value c = if leb c b'9' then c - b'0' else if leb c b'F' then c - b'A' + 10 else c - b'a' + 10

abbrev pub value : ℕ → List ℕ → ℕ
value base [] = 0
value base (c ∷ s) = digit_value c + base * value base s

-- The highest digit.
abbrev pub top : List ℕ → ℕ
top [] = 0
top (c ∷ []) = digit_value c
top (c ∷ d ∷ s) = top (d ∷ s)

abbrev pub Digits : ℕ → List ℕ → Type 0
Digits base = All (λ c. (b'0' ≤ c) × (digit_value c < base))

-- `s` shows `a` in `base`, in at most `k` digits, the highest of which is not 0.
pub record Shows (base k a : ℕ) (s : List ℕ) : Type 0 where
  pub value_eq : value base s ≡ a
  pub digits : Digits base s
  pub leads : 0 < a → 0 < top s
  pub short : length s ≤ k

wr2p_lem :
    (upcase : Bool) (d : ℕ) → d < 16 → (digit_value (wr2p upcase d) ≡ d) × (b'0' ≤ wr2p upcase d)
unfolding wr2p
wr2p_lem true d h = ground arith
wr2p_lem false d h = ground arith

Shows-nil : (base k : ℕ) → Shows base k 0 []
Shows-nil base k = record { value_eq = refl; digits = tt; leads = omega arith; short = omega arith }

-- A digit below a numeral of the quotient.
Shows-cons :
    (base k a c : ℕ) (s : List ℕ)
    → base ≤ 16
    → (digit_value c ≡ a % base) × (b'0' ≤ c)
    → 0 < base
    → 0 < a
    → (0 < length s → 0 < a / base)
    → Shows base k (a / base) s
    → Shows base (suc k) a (c ∷ s)
Shows-cons base k a c [] small (e, printed) pos a_pos more h =
    let eq : value base (c ∷ []) ≡ a =
      omega (arith, ap (λ (t : ℕ). base * t) h.value_eq, div-add-mod a base) in
    let lt : digit_value c < base = omega (arith, mod-lt a pos) in
    record {
      value_eq = eq;
      digits = ((printed, lt), tt);
      leads = λ _. omega (arith, eq);
      short = omega arith;
    }
Shows-cons base k a c (d ∷ s) small (e, printed) pos a_pos more h =
    let eq : value base (c ∷ d ∷ s) ≡ a =
      omega (arith, ap (λ (t : ℕ). base * t) h.value_eq, div-add-mod a base) in
    let lt : digit_value c < base = omega (arith, mod-lt a pos) in
    record {
      value_eq = eq;
      digits = ((printed, lt), h.digits);
      leads = λ _. h.leads (more (omega arith));
      short = omega (arith, h.short);
    }

pub quotient-lt : (base k a : ℕ) → 2 ≤ base → a < base ^ suc k → a / base < base ^ k
quotient-lt base k a two h =
    (div-lt_iff_lt-mul {x = a} (omega arith)).1 (omega (arith, pow-suc base k))

pub quotient-lt32 : (base a : ℕ) → a < 2 ^ 32 → a / base < 2 ^ 32
quotient-lt32 base a h = omega (arith, div-le_self a base)

remainder-lt16 : (base a : ℕ) → 2 ≤ base → base ≤ 16 → a % base < 16
remainder-lt16 base a two small = omega (arith, mod-lt a {m = base} (omega arith))

-- A loop that writes a digit and goes on at the quotient; 0 ends it.
module _ (base : ℕ) (loop : ℕ → ℕ → Option (List ℕ)) (char : ℕ → ℕ) (small : base ≤ 16)
    (two : 2 ≤ base) (char_lem : (d : ℕ) → d < 16 → (digit_value (char d) ≡ d) × (b'0' ≤ char d))
    (ends : (rounds : ℕ) → loop (suc rounds) 0 ≡ some [])
    (goes_on : (rounds a : ℕ)
      → 0 < a
      → a < 2 ^ 32
      → loop (suc rounds) a ≡ cons (char (a % base)) (loop rounds (a / base))) where
  loop-Shows :
      (k a : ℕ)
      → a < base ^ k
      → a < 2 ^ 32
      → (s : List ℕ) × (loop (suc k) a ≡ some s) × Shows base k a s × (0 < length s → 0 < a)
  loop-Shows k zero h w = ([], ends k, Shows-nil base k, omega arith)
  loop-Shows zero (suc a) h w = absurd (omega (arith, pow-zero base))
  loop-Shows (suc k) (suc a) h w =
      let (s, e, shows, more) =
        loop-Shows k (suc a / base) (quotient-lt base k (suc a) two h)
          (quotient-lt32 base (suc a) w) in
      let digit = char_lem (suc a % base) (remainder-lt16 base (suc a) two small) in
      (
        char (suc a % base) ∷ s,
        rw (goes_on (suc k) (suc a) (omega arith) w) (rw e refl),
        Shows-cons base k (suc a) _ s small digit (le_trans (omega arith) two) (omega arith) more
            shows,
        λ _. omega arith,
      )

pub dec_loop-suc :
    (upcase : Bool) (rounds a : ℕ)
    → 0 < a
    → a < 2 ^ 32
    → dec_loop upcase (suc rounds) a ≡ cons (wr2p upcase (a % 10)) (dec_loop upcase rounds (a / 10))
unfolding dec_loop
dec_loop-suc upcase rounds a pos w = rw (split10_lem a w, lt→ltb 0 a pos)

pub hex_loop-suc :
    (upcase : Bool) (rounds a : ℕ)
    → 0 < a
    → a < 2 ^ 32
    → hex_loop upcase (suc rounds) a ≡ cons (wr2p upcase (a % 16)) (hex_loop upcase rounds (a / 16))
unfolding hex_loop
hex_loop-suc upcase rounds a pos w = rw (bit_and_low 4 a, lt→ltb 0 a pos)

single-Shows :
    (base k a : ℕ) (upcase : Bool)
    → a < base
    → base ≤ 16
    → Shows base (suc k) a (wr2p upcase a ∷ [])
single-Shows base k a upcase h small =
    let (e, printed) = wr2p_lem upcase a (omega arith) in
    record {
      value_eq = omega (arith, e);
      digits = ((printed, omega (arith, e)), tt);
      leads = λ pos. omega (arith, e);
      short = omega arith;
    }

-- For every 32-bit number `my_dec2str` returns, and writes the decimal numeral of the number,
-- lowest digit first: at most ten characters, each a decimal digit, with the number as their
-- value and, unless the number is 0, no zero in front.
pub dec2str-Shows :
    (a : ℕ) (upcase : Bool)
    → a < 2 ^ 32
    → (s : List ℕ) × (my_dec2str a upcase ≡ some s) × Shows 10 10 a s
dec2str-Shows a upcase h = elim (dec_lt a 10) [
  | yes small ↦ (
    wr2p upcase a ∷ [],
    unfold my_dec2str in ground arith,
    single-Shows 10 9 a upcase small (omega arith),
  )
  | no large ↦ elim (dec_lt 10 a) [
    | yes larger ↦
        let (s, e, shows, _) =
          loop-Shows 10 (dec_loop upcase) (wr2p upcase) (omega arith) (omega arith)
            (wr2p_lem upcase) (λ rounds. unfold dec_loop in refl) (dec_loop-suc upcase) 10 a
            (omega arith) h in
        (s, unfold my_dec2str in ground arith, shows)
    | no not_larger ↦
        let ten : a ≡ 10 = omega arith in
        let zero_digit = wr2p_lem upcase 0 (omega arith) in
        let one_digit = wr2p_lem upcase 1 (omega arith) in
        (wr2p upcase 0 ∷ wr2p upcase 1 ∷ [], unfold my_dec2str in ground arith, omega arith)
  ]
]

-- For every 32-bit number `my_hex2str` returns, and writes the hexadecimal numeral of the number,
-- lowest digit first: at most eight characters, each a hexadecimal digit, with the number as
-- their value and, unless the number is 0, no zero in front.
pub hex2str-Shows :
    (a : ℕ) (upcase : Bool)
    → a < 2 ^ 32
    → (s : List ℕ) × (my_hex2str a upcase ≡ some s) × Shows 16 8 a s
hex2str-Shows a upcase h = elim (dec_lt a 16) [
  | yes small ↦ (
    wr2p upcase a ∷ [],
    unfold my_hex2str in ground arith,
    single-Shows 16 7 a upcase small (omega arith),
  )
  | no large ↦
      let (s, e, shows, _) =
        loop-Shows 16 (hex_loop upcase) (wr2p upcase) (omega arith) (omega arith) (wr2p_lem upcase)
          (λ rounds. unfold hex_loop in refl) (hex_loop-suc upcase) 8 a (omega arith) h in
      (s, unfold my_hex2str in ground arith, shows)
]
