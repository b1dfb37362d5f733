-- ===== src/Tests/Garbled.antt =====
-- A blob that is no tree.
use qcom_ipq_aux_loader.Base.{
  ℕ, zero, suc, ◌+◌, ◌-◌, ◌*◌, ◌%◌, ◌<◌, ◌≤◌, inl, ◌^◌, ◌≡◌, refl, List, [], ◌∷◌, ◌++◌, codes,
  get_or, All, some, arith,
}
use qcom_ipq_aux_loader.Machine.Memory.{load8, load32, load32_be}
use qcom_ipq_aux_loader.Board.{ntohl}
use qcom_ipq_aux_loader.Board.Swap.{ntohl-load32}
use qcom_ipq_aux_loader.Fdt.{word, Reply, fdt_get_prop}
use qcom_ipq_aux_loader.Fdt.Sound.{IsAnswer}
use qcom_ipq_aux_loader.Fdt.Finishes.{IsBounded, get_prop-Returns}
use qcom_ipq_aux_loader.Tests.Data.{bytes_at, be32, board, machine}
use qcom_ipq_aux_loader.Tests.Fit.{decoder-Answers}
use qcom_ipq_aux_loader.Loader.Every.{Concludes, loader_main-Concludes}
use qcom_ipq_aux_loader.Loader.{loader_main}
use qcom_ipq_aux_loader.Drivers.Cpu.{ipq806x}

-- After an acceptable header, a property that is longer than the blob.
abbrev pub behind_magic : List ℕ
behind_magic =
    be32 64
    ++ be32 40
    ++ be32 56
    ++ be32 0
    ++ be32 17
    ++ be32 16
    ++ be32 0
    ++ be32 0
    ++ be32 0
    ++ be32 3
    ++ be32 100
    ++ be32 0
    ++ be32 7
    ++ be32 0
    ++ be32 0

abbrev pub garbled : List ℕ
garbled = be32 0xd00d_feed ++ behind_magic

get_or-lt : (xs : List ℕ) (i : ℕ) → All (λ c. c < 101) xs → get_or xs i 0 < 101
get_or-lt [] i h = omega arith
get_or-lt (x ∷ xs) zero h = h.0
get_or-lt (x ∷ xs) (suc i) h = get_or-lt xs i h.1

pub byte-small : (i : ℕ) → 4 ≤ i → get_or garbled i 0 < 101
byte-small (suc (suc (suc (suc i)))) h = get_or-lt behind_magic i (omega arith)
byte-small zero h = absurd (omega arith)
byte-small (suc zero) h = absurd (omega arith)
byte-small (suc (suc zero)) h = absurd (omega arith)
byte-small (suc (suc (suc zero))) h = absurd (omega arith)

load8-small : (a : ℕ) → 4100 ≤ a → a < 2 ^ 32 → load8 (bytes_at garbled) a < 101
unfolding load8
load8-small a h g = ground (arith, byte-small (a % 2 ^ 32 - 4096) (omega arith))

word-small : (a : ℕ) → 4100 ≤ a → a + 4 < 2 ^ 32 → word (bytes_at garbled) a < 101 * 2 ^ 24
unfolding load32_be
word-small a h g = omega (
  arith,
  ntohl-load32 (bytes_at garbled) a,
  load8-small a h (omega arith),
  load8-small (a + 1) (omega arith) (omega arith),
  load8-small (a + 2) (omega arith) (omega arith),
  load8-small (a + 3) (omega arith) (omega arith),
)

garbled-IsBounded : IsBounded (bytes_at garbled) 4136 4160 4159 5000
unfolding load8
garbled-IsBounded = record {
  some_fuel = omega arith;
  enough = omega arith;
  start = omega arith;
  nul = refl;
  past = omega arith;
  room = omega arith;
  lengths = λ a above inside tag. omega (arith, word-small (a + 4) (omega arith) (omega arith));
}

get_prop-Returns_example :
    (r : Reply) × (fdt_get_prop (bytes_at garbled) 5000 4096 (codes "kernel@1") (codes "load")
      ≡ some r)
    × (r.ptr + r.len + 7 < 2 ^ 32)
    × IsAnswer (bytes_at garbled) 4152 4160 (codes "load") r
unfolding ntohl load32 load8
get_prop-Returns_example =
    get_prop-Returns (bytes_at garbled) 4096 5000 4159 (codes "kernel@1") (codes "load")
      garbled-IsBounded

loader_main-Concludes_example :
    Concludes ipq806x 4200
      (machine (bytes_at garbled))
      (loader_main (board 64) 4200 (machine (bytes_at garbled)))
unfolding ntohl load32 load8
loader_main-Concludes_example =
    loader_main-Concludes (board 64) 4200 (machine (bytes_at garbled)) 4159 (inl refl)
      (record { header = omega arith; below = omega arith }) decoder-Answers
      (λ adequate. garbled-IsBounded) (omega arith)
