-- ===== src/Tests/Fit.antt =====
-- An image with a kernel and a device tree.
use qcom_ipq_aux_loader.Fdt.{Reply}
use qcom_ipq_aux_loader.Lzma.{Decoder}
use qcom_ipq_aux_loader.Loader.Given.{Build}
use qcom_ipq_aux_loader.Loader.Fit.Unpacks.{HasRoom, Unpacks}
use qcom_ipq_aux_loader.Loader.FitStart.{fit_kernel, fit_unpacked-Starts}
use qcom_ipq_aux_loader.Base.{
  ℕ, ◌+◌, ◌<◌, ◌&&◌, leb, ltb, if◌then◌else◌, true, inl, ◌≡◌, refl, inr, List, [], ◌∷◌, codes,
  arith,
}
use qcom_ipq_aux_loader.Machine.Memory.{load8, load32, load32_be}
use qcom_ipq_aux_loader.Board.{ntohl}
use qcom_ipq_aux_loader.Fdt.Layout.{Tag, opens, prop, closes, Lays}
use qcom_ipq_aux_loader.Fdt.Find.{IsBlob}
use qcom_ipq_aux_loader.Fdt.Header.{IsAdequate}
use qcom_ipq_aux_loader.Lzma.Returns.{Answers}
use qcom_ipq_aux_loader.Loader.Fit.Missing.{first_missing}
use qcom_ipq_aux_loader.Loader.Duty.{Duty, boot_fit, Fulfils, loader_main-Fulfils}
use qcom_ipq_aux_loader.Machine.Run.{Machine}
use qcom_ipq_aux_loader.Drivers.Cpu.{ipq806x}
use qcom_ipq_aux_loader.Loader.{loader_main}
use qcom_ipq_aux_loader.Loader.Starts.{Starts}
use qcom_ipq_aux_loader.Loader.FitBoot.{IsFit}
use qcom_ipq_aux_loader.Tests.Data.{bytes_at, full, decoder, machine, board}
use qcom_ipq_aux_loader.Tests.Fdt.{is_cstring, cstring}

abbrev full_tags : List Tag
full_tags =
    opens []
    ∷ opens (codes "kernel@1")
    ∷ prop (codes "description") 2
    ∷ prop (codes "load") 4
    ∷ prop (codes "entry") 4
    ∷ prop (codes "data") 4
    ∷ prop (codes "compression") 5
    ∷ closes
    ∷ opens (codes "fdt@1")
    ∷ prop (codes "data") 4
    ∷ closes
    ∷ closes
    ∷ []

full-Lays : Lays (bytes_at full) 4136 4288 4328 full_tags 0
unfolding ntohl load32 load8 is_cstring
full-Lays = (
  (refl, refl, omega arith),
  (
    (refl, cstring (bytes_at full) 4148 (codes "kernel@1") refl, omega arith),
    (
      (
        refl,
        refl,
        omega arith,
        cstring (bytes_at full) 4288 (codes "description") refl,
        omega arith,
      ),
      (
        (refl, refl, omega arith, cstring (bytes_at full) 4300 (codes "load") refl, omega arith),
        (
          (refl, refl, omega arith, cstring (bytes_at full) 4305 (codes "entry") refl, omega arith),
          (
            (
              refl,
              refl,
              omega arith,
              cstring (bytes_at full) 4311 (codes "data") refl,
              omega arith,
            ),
            (
              (
                refl,
                refl,
                omega arith,
                cstring (bytes_at full) 4316 (codes "compression") refl,
                omega arith,
              ),
              (
                (refl, omega arith),
                (
                  (refl, cstring (bytes_at full) 4252 (codes "fdt@1") refl, omega arith),
                  (
                    (
                      refl,
                      refl,
                      omega arith,
                      cstring (bytes_at full) 4311 (codes "data") refl,
                      omega arith,
                    ),
                    ((refl, omega arith), ((refl, omega arith), (refl, omega arith))),
                  ),
                ),
              ),
            ),
          ),
        ),
      ),
    ),
  ),
)

unfoldable full-IsBlob : IsBlob (bytes_at full) 4096 full_tags
unfolding load8 load32_be
full-IsBlob = record {
  p = 4136;
  n = 4288;
  t = 4328;
  struct_at = refl;
  strings_at = refl;
  ends_at = refl;
  bound = omega arith;
  strings_before = omega arith;
  image_before = omega arith;
  tags = full-Lays;
}

full-IsAdequate : IsAdequate (bytes_at full) 4096 232
unfolding load8 load32_be
full-IsAdequate = record {
  magic = refl;
  fits = omega arith;
  version = omega arith;
  last_comp_version = omega arith;
  struct_pos = omega arith;
  struct_inside = omega arith;
  strings_pos = omega arith;
  strings_inside = omega arith;
}

pub decoder-Answers : Answers decoder
decoder-Answers = record {
  properties_lt = λ bytes. omega arith;
  result_lt = λ p mem a b c d e. omega arith;
  in_lt = λ p mem a b c d e. omega arith;
  out_lt = λ p mem a b c d e. omega arith;
}

unfoldable full-IsFit : IsFit (board 232) (bytes_at full) full_tags
unfolding first_missing full-IsBlob load8 load32_be
full-IsFit = record {
  adequate = full-IsAdequate;
  blob = full-IsBlob;
  enough = omega arith;
  complete = refl;
  short = omega arith;
  fits = record { source = omega arith; target = omega arith; apart = inr (omega arith) };
}

-- It writes three sevens.
abbrev sevens : Decoder
sevens = record {
  properties = λ bytes. (0, record { lc = 3; lp = 0; pb = 2 });
  decode = λ properties mem probs stream size out out_size. record {
    result = 0;
    in_processed = 4;
    out_processed = 3;
    memory = λ a. if leb out a && ltb a (out + 3) then 7 else mem a;
  };
}

sevens-Answers : Answers sevens
sevens-Answers = record {
  properties_lt = λ bytes. omega arith;
  result_lt = λ p mem a b c d e. omega arith;
  in_lt = λ p mem a b c d e. omega arith;
  out_lt = λ p mem a b c d e. omega arith;
}

abbrev unpacking : Build
unpacking = record (board 232) { decoder = sevens }

unfoldable unpacking-IsFit : IsFit unpacking (bytes_at full) full_tags
unfolding full-IsFit full-IsBlob
unpacking-IsFit = record {
  adequate = full-IsFit.adequate;
  blob = full-IsBlob;
  enough = omega arith;
  complete = full-IsFit.complete;
  short = full-IsFit.short;
  fits = record { source = omega arith; target = omega arith; apart = inr (omega arith) };
}

sevens-Unpacks : (src : Reply) → Unpacks unpacking (bytes_at full) 256 src (λ j. 7) 3 0
unfolding load8
sevens-Unpacks src mem same = record {
  properties_ok = refl;
  result_ok = refl;
  written = λ j lt. ground arith;
  kept = λ a small out probs. ground arith;
}

unpacking-HasRoom :
    HasRoom unpacking 256
      (fit_kernel unpacking (bytes_at full) full_tags unpacking-IsFit)
      (record { ptr = 4272; len = 4 })
      3
      0
unfolding unpacking-IsFit full-IsBlob
unpacking-HasRoom = record {
  below = omega arith;
  stream_fits = omega arith;
  table_fits = omega arith;
  stream_table = inl (omega arith);
  blob_table = inl (omega arith);
  blob_kernel = inr (omega arith);
  blob_probs = inl (omega arith);
  kernel_fits = omega arith;
  kernel_blob = inl (omega arith);
  fits = record { source = omega arith; target = omega arith; apart = inr (omega arith) };
}

fit_unpacked-Starts_example :
    (m' : Machine) × Starts ipq806x m' (loader_main unpacking 4200 (machine (bytes_at full)))
    × (m'.kernel_entry ≡ 512)
    × (m'.kernel_p1 ≡ 4200)
    × (m'.kernel_p2 ≡ 65536)
    × ((j : ℕ) → j < 3 → load8 m'.memory (256 + j) ≡ 7)
    × ((j : ℕ) → j < 4 → load8 m'.memory (65536 + j) ≡ load8 (bytes_at full) (4272 + j))
unfolding unpacking-IsFit full-IsBlob load8 load32_be
fit_unpacked-Starts_example =
    fit_unpacked-Starts unpacking (machine (bytes_at full)) full_tags (λ j. 7) 3 0 (inl refl)
      unpacking-IsFit unpacking-HasRoom (sevens-Unpacks _)

unfoldable unpacking_duty : Duty unpacking (bytes_at full)
unfolding unpacking-IsFit full-IsBlob load8 load32_be
unpacking_duty =
    boot_fit full_tags (λ j. 7) 3 0 unpacking-IsFit unpacking-HasRoom (sevens-Unpacks _)
      (omega arith) (omega arith)

loader_main-Fulfils_example :
    Fulfils unpacking
      (bytes_at full)
      true
      unpacking_duty
      4200
      (machine (bytes_at full))
      (loader_main unpacking 4200 (machine (bytes_at full)))
loader_main-Fulfils_example =
    loader_main-Fulfils unpacking 4200 (machine (bytes_at full)) (inl refl) sevens-Answers
      (omega arith) unpacking_duty
