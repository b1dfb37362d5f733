-- ===== src/Base/Bits.antt =====
-- Laws of `&` and `|` at variables, from the digit recursion that the native operations mean.
use Prim.Native.Nat.{
  ℕ, zero, suc, ◌+◌, ◌-◌, ◌*◌, ◌/◌, ◌%◌, ◌^◌, ◌≤◌, ◌<◌, min, max, bit_and, bit_or,
}
use Prim.Native.Nat.{digits, bit_and-bitwise, bit_or-bitwise}
use mathlib.Core.Path.{◌≡◌, refl, ap}
use native.Mathlib.Nat.{pow-suc, pow-zero, one-le-pow, mul-one, add-zero}
use native.Mathlib.Omega.{arith}

-- Any two amounts of fuel that cover the first number give the same digits.
covered :
    (z : ℕ → ℕ) (f : ℕ → ℕ → ℕ) (k l a b : ℕ) → a ≤ k → a ≤ l → digits z f k a b ≡ digits z f l a b
covered z f zero zero a b p q = refl
covered z f zero (suc l) zero b p q = refl
covered z f zero (suc l) (suc a) b p q = elim p [ ]
covered z f (suc k) zero zero b p q = refl
covered z f (suc k) zero (suc a) b p q = elim q [ ]
covered z f (suc k) (suc l) zero b p q = refl
covered z f (suc k) (suc l) (suc a) b p q =
    ap (λ t. t * 2 + f (suc a % 2) (b % 2))
      (covered z f k l (suc a / 2) (b / 2) (omega arith) (omega arith))

-- The lowest binary digit, and the rest.
pub bit_and_digit : (a b : ℕ) → bit_and a b ≡ bit_and (a / 2) (b / 2) * 2 + min (a % 2) (b % 2)
bit_and_digit zero b = simp bit_and-bitwise (omega arith)
bit_and_digit (suc a) b =
    let half : ℕ = suc a / 2 in
    simp bit_and-bitwise
      (omega (arith, covered (λ y. 0) min a half half (b / 2) (omega arith) (omega arith)))

pub bit_or_digit : (a b : ℕ) → bit_or a b ≡ bit_or (a / 2) (b / 2) * 2 + max (a % 2) (b % 2)
bit_or_digit zero b = simp bit_or-bitwise (omega arith)
bit_or_digit (suc a) b =
    let half : ℕ = suc a / 2 in
    simp bit_or-bitwise
      (omega (arith, covered (λ y. y) max a half half (b / 2) (omega arith) (omega arith)))

-- By halving, bounded by a number that covers `a`.
and-zero_below : (n a : ℕ) → a ≤ n → bit_and a 0 ≡ 0
and-zero_below n zero h = refl
and-zero_below zero (suc a) h = elim h [ ]
and-zero_below (suc n) (suc a) h =
    omega (arith, bit_and_digit (suc a) 0, and-zero_below n (suc a / 2) (omega arith))

pub bit_and-zero : (a : ℕ) → bit_and a 0 ≡ 0
bit_and-zero a = and-zero_below a a (omega arith)

or-zero_below : (n a : ℕ) → a ≤ n → bit_or a 0 ≡ a
or-zero_below n zero h = refl
or-zero_below zero (suc a) h = elim h [ ]
or-zero_below (suc n) (suc a) h =
    omega (arith, bit_or_digit (suc a) 0, or-zero_below n (suc a / 2) (omega arith))

pub bit_or-zero : (a : ℕ) → bit_or a 0 ≡ a
bit_or-zero a = or-zero_below a a (omega arith)

double_shift : (q k : ℕ) → q * 2 ^ suc k ≡ 2 * (q * 2 ^ k)
double_shift q k = omega (arith, ap (λ (t : ℕ). q * t) (pow-suc 2 k))

-- Disjoint fields: `|` adds.
pub bit_or_add : (k q r : ℕ) → r < 2 ^ k → bit_or (q * 2 ^ k) r ≡ q * 2 ^ k + r
bit_or_add zero q r h = ground (arith, bit_or-zero q)
bit_or_add (suc k) q r h =
    let step = bit_or_digit (q * 2 ^ suc k) r in
    let rest = bit_or_add k q (r / 2) (omega (arith, pow-suc 2 k)) in
    ground (arith, step, double_shift q k, rest)

and_low_sum : (k q r : ℕ) → r < 2 ^ k → bit_and (q * 2 ^ k + r) (2 ^ k - 1) ≡ r
and_low_sum zero q r h = rw bit_and-zero (omega arith)
and_low_sum (suc k) q r h =
    let step = bit_and_digit (q * 2 ^ suc k + r) (2 ^ suc k - 1) in
    let rest = and_low_sum k q (r / 2) (omega (arith, pow-suc 2 k)) in
    ground (arith, step, double_shift q k, pow-suc 2 k, rest)

-- A mask of the `k` low bits is the remainder by `2 ^ k`.
pub bit_and_low : (k a : ℕ) → bit_and a (2 ^ k - 1) ≡ a % 2 ^ k
bit_and_low k a = ground (arith, one-le-pow k 2, and_low_sum k (a / 2 ^ k) (a % 2 ^ k))

scaled : (q r k : ℕ) → (q * 2 ^ suc k + r) / 2 ≡ q * 2 ^ k + r / 2
scaled q r k = omega (arith, double_shift q k)

low_digit : (q r k : ℕ) → (q * 2 ^ suc k + r) % 2 ≡ r % 2
low_digit q r k = omega (arith, double_shift q k)

half-lt : (r k : ℕ) → r < 2 ^ suc k → r / 2 < 2 ^ k
half-lt r k h = omega (arith, pow-suc 2 k)

-- Both operations work on the two parts of a number, above and below digit `k`, by themselves.
pub bit_or_split :
    (k q r s t : ℕ)
    → r < 2 ^ k
    → t < 2 ^ k
    → bit_or (q * 2 ^ k + r) (s * 2 ^ k + t) ≡ bit_or q s * 2 ^ k + bit_or r t
bit_or_split zero q zero s zero hr ht = simp (pow-zero, mul-one, add-zero) refl
bit_or_split zero q (suc r) s t hr ht = absurd (omega (arith, pow-zero 2))
bit_or_split zero q zero s (suc t) hr ht = absurd (omega (arith, pow-zero 2))
bit_or_split (suc k) q r s t hr ht =
    let whole = bit_or_digit (q * 2 ^ suc k + r) (s * 2 ^ suc k + t) in
    let rest = bit_or_split k q (r / 2) s (t / 2) (half-lt r k hr) (half-lt t k ht) in
    let whole' = rw (scaled q r k, scaled s t k, low_digit q r k, low_digit s t k, rest) at whole in
    omega (arith, whole', bit_or_digit r t, double_shift (bit_or q s) k)

pub bit_and_split :
    (k q r s t : ℕ)
    → r < 2 ^ k
    → t < 2 ^ k
    → bit_and (q * 2 ^ k + r) (s * 2 ^ k + t) ≡ bit_and q s * 2 ^ k + bit_and r t
bit_and_split zero q zero s zero hr ht = simp (pow-zero, mul-one, add-zero) refl
bit_and_split zero q (suc r) s t hr ht = absurd (omega (arith, pow-zero 2))
bit_and_split zero q zero s (suc t) hr ht = absurd (omega (arith, pow-zero 2))
bit_and_split (suc k) q r s t hr ht =
    let whole = bit_and_digit (q * 2 ^ suc k + r) (s * 2 ^ suc k + t) in
    let rest = bit_and_split k q (r / 2) s (t / 2) (half-lt r k hr) (half-lt t k ht) in
    let whole' = rw (scaled q r k, scaled s t k, low_digit q r k, low_digit s t k, rest) at whole in
    omega (arith, whole', bit_and_digit r t, double_shift (bit_and q s) k)

pub zero-bit_or : (a : ℕ) → bit_or 0 a ≡ a
zero-bit_or a = bit_or-bitwise 0 a

pub zero-bit_and : (a : ℕ) → bit_and 0 a ≡ 0
zero-bit_and a = bit_and-bitwise 0 a

-- A field above the bits that are in use.
pub or_field : (k q r : ℕ) → r < 2 ^ k → 0 < 2 ^ k → bit_or r (q * 2 ^ k) ≡ r + q * 2 ^ k
or_field k q r h pos = ground (arith, bit_or_split k 0 r q 0 h pos, zero-bit_or q, bit_or-zero r)

-- `x & ~3` on 32 bits.
pub bit_and_align : (a : ℕ) → a < 2 ^ 32 → bit_and a 0xffff_fffc ≡ a / 4 * 4
bit_and_align a h = omega (
  arith,
  bit_and_digit a 0xffff_fffc,
  bit_and_digit (a / 2) 0x7fff_fffe,
  bit_and_low 30 (a / 2 / 2),
)
