-- ===== src/Fdt/Text.antt =====
-- The two string loops against NUL-terminated strings in memory.
use qcom_ipq_aux_loader.Base.{
  ℕ, zero, suc, ◌+◌, ◌^◌, ◌<◌, ◌≡◌, ◌≢◌, Bool, true, false, some, List, [], ◌∷◌, arith, length, All,
  add32, ◌==◌, if◌then◌else◌,
}
use qcom_ipq_aux_loader.Machine.Memory.{Memory, load8}
use qcom_ipq_aux_loader.Fdt.{fdt_streq, fdt_strlen_from, fdt_strlen}

-- No NUL inside.
abbrev pub IsText : List ℕ → Type 0
IsText = All (λ c. c ≢ 0)

-- The characters `s` stand in memory at `a`, and a NUL behind them.
abbrev pub CString : Memory → ℕ → List ℕ → Type 0
CString mem a [] = load8 mem a ≡ 0
CString mem a (c ∷ s) = (load8 mem a ≡ c) × (c ≢ 0) × CString mem (a + 1) s

abbrev pub same_text : List ℕ → List ℕ → Bool
same_text [] [] = true
same_text [] (d ∷ t) = false
same_text (c ∷ s) [] = false
same_text (c ∷ s) (d ∷ t) = if c == d then same_text s t else false

-- For a literal without NUL and a string in memory that stands below the end of the address space,
-- `fdt_streq` answers whether they are the same.
pub fdt_streq_lem :
    (mem : Memory) (a : ℕ) (s t : List ℕ)
    → IsText s
    → CString mem a t
    → a + length t < 2 ^ 32
    → fdt_streq mem s a ≡ same_text s t
unfolding fdt_streq
fdt_streq_lem mem a [] [] hs ht b = ground arith
fdt_streq_lem mem a [] (d ∷ t) hs ht b = ground arith
fdt_streq_lem mem a (c ∷ s) [] hs ht b = ground arith
fdt_streq_lem mem a (c ∷ s) (d ∷ t) hs ht b =
    let next : add32 a 1 ≡ a + 1 = omega arith in
    ground (arith, next, fdt_streq_lem mem (a + 1) s t hs.1 ht.2 (omega arith))

strlen_from_lem :
    (mem : Memory) (fuel len a : ℕ) (t : List ℕ)
    → CString mem a t
    → a + length t < 2 ^ 32
    → length t < fuel
    → fdt_strlen_from mem fuel len a ≡ some (len + length t)
unfolding fdt_strlen_from
strlen_from_lem mem zero len a t ht b f = elim f [ ]
strlen_from_lem mem (suc fuel) len a [] ht b f = ground arith
strlen_from_lem mem (suc fuel) len a (d ∷ t) ht b f =
    let next : add32 a 1 ≡ a + 1 = omega arith in
    ground (arith, next, strlen_from_lem mem fuel (len + 1) (a + 1) t ht.2)

-- For a string in memory that stands below the end of the address space, `fdt_strlen`, given more
-- fuel than it has characters, returns their number.
pub fdt_strlen_lem :
    (mem : Memory) (fuel a : ℕ) (t : List ℕ)
    → CString mem a t
    → a + length t < 2 ^ 32
    → length t < fuel
    → fdt_strlen mem fuel a ≡ some (length t)
unfolding fdt_strlen
fdt_strlen_lem mem fuel a t ht b f = ground (arith, strlen_from_lem mem fuel 0 a t ht b f)
