-- ===== src/Fdt/Local.antt =====
-- A tree's blob is what its bytes are: in another memory with the same bytes it is the same blob.
use qcom_ipq_aux_loader.Base.{
  ℕ, ◌+◌, ◌^◌, ◌<◌, ◌≤◌, ◌≡◌, sym, ◌∙◌, List, [], ◌∷◌, arith, length, add32,
}
use qcom_ipq_aux_loader.Machine.Memory.{Memory, load8, load32_be}
use qcom_ipq_aux_loader.Board.Swap.{ntohl-load32}
use qcom_ipq_aux_loader.Fdt.{word}
use qcom_ipq_aux_loader.Fdt.Text.{CString}
use qcom_ipq_aux_loader.Fdt.Layout.{Tag, opens, prop, closes, nop, after, Stands, Lays}
use qcom_ipq_aux_loader.Fdt.Find.{IsBlob}
use qcom_ipq_aux_loader.Fdt.Header.{IsAdequate}

-- The bytes from `lo` up to `hi` are the same.
abbrev pub Same : Memory → Memory → ℕ → ℕ → Type 0
Same mem mem' lo hi = (a : ℕ) → lo ≤ a → a < hi → load8 mem' a ≡ load8 mem a

module _ (mem mem' : Memory) (lo hi : ℕ) (same : Same mem mem' lo hi) where
  pub word_same : (a : ℕ) → lo ≤ a → a + 4 ≤ hi → load32_be mem' a ≡ load32_be mem a
  unfolding load32_be
  word_same a h g = ground (arith, same a, same (a + 1), same (a + 2), same (a + 3))

  tag_same : (a : ℕ) → lo ≤ a → a + 4 ≤ hi → word mem' a ≡ word mem a
  tag_same a h g = ntohl-load32 mem' a ∙ word_same a h g ∙ sym (ntohl-load32 mem a)

  CString-same :
      (a : ℕ) (s : List ℕ) → lo ≤ a → a + length s < hi → CString mem a s → CString mem' a s
  CString-same a [] h g c = same a h (omega arith) ∙ c
  CString-same a (d ∷ s) h g (first, nonzero, rest) = (
    same a h (omega arith) ∙ first,
    nonzero,
    CString-same (a + 1) s (omega arith) (omega arith) rest,
  )

  module _ (p n t : ℕ) (p_in : lo ≤ p) (n_in : lo ≤ n) (t_in : t ≤ hi) where
    Stands-same : (g : Tag) (offset : ℕ) → Stands mem p n t g offset → Stands mem' p n t g offset
    Stands-same (opens name) offset (tag, text, inside) = (
      tag_same (p + offset) (omega arith) (omega arith) ∙ tag,
      CString-same (p + offset + 4) name (omega arith) (omega arith) text,
      inside,
    )
    Stands-same (prop name len) offset (tag, size, inside, text, text_inside) =
        let at = tag_same (p + offset + 8) (omega arith) (omega arith) in
        (
          tag_same (p + offset) (omega arith) (omega arith) ∙ tag,
          tag_same (p + offset + 4) (omega arith) (omega arith) ∙ size,
          inside,
          rw at
              (CString-same (n + word mem (p + offset + 8)) name (omega arith) (omega arith) text),
          rw at text_inside,
        )
    Stands-same closes offset (tag, inside) =
        (tag_same (p + offset) (omega arith) (omega arith) ∙ tag, inside)
    Stands-same nop offset (tag, inside) =
        (tag_same (p + offset) (omega arith) (omega arith) ∙ tag, inside)

    pub Lays-same :
        (gs : List Tag) (offset : ℕ) → Lays mem p n t gs offset → Lays mem' p n t gs offset
    Lays-same [] offset (tag, inside) =
        (tag_same (p + offset) (omega arith) (omega arith) ∙ tag, inside)
    Lays-same (g ∷ gs) offset (s, rest) =
        (Stands-same g offset s, Lays-same gs (after g offset) rest)

  unfoldable pub IsBlob-same :
      (image : ℕ) (gs : List Tag)
      → lo ≤ image
      → (blob : IsBlob mem image gs) → blob.t ≤ hi
      → IsBlob mem' image gs
  IsBlob-same image gs h blob inside =
      let before = blob.image_before in
      let p_at = blob.struct_at in
      let n_at = blob.strings_at in
      record {
        p = blob.p;
        n = blob.n;
        t = blob.t;
        struct_at = rw (word_same (image + 8) (omega arith) (omega arith)) p_at;
        strings_at = rw (word_same (image + 12) (omega arith) (omega arith)) n_at;
        ends_at = rw (word_same (image + 4) (omega arith) (omega arith)) (blob.ends_at);
        bound = blob.bound;
        strings_before = blob.strings_before;
        image_before = blob.image_before;
        tags = Lays-same blob.p blob.n blob.t (omega arith) (omega arith) inside gs 0 blob.tags;
      }

  pub IsAdequate-same :
      (image len : ℕ)
      → lo ≤ image
      → image + 28 ≤ hi
      → hi < 2 ^ 32
      → IsAdequate mem image len
      → IsAdequate mem' image len
  IsAdequate-same image len h inside small ok =
      let at = λ (k : ℕ) (b : k ≤ 24).
        let place : add32 image k ≡ image + k = omega arith in
        let there : load32_be mem' (add32 image k) ≡ load32_be mem (add32 image k) =
          rw place (word_same (image + k) (omega arith) (omega arith)) in
        there in
      let w4 = at 4 (omega arith) in
      let w8 = at 8 (omega arith) in
      let w12 = at 12 (omega arith) in
      let w20 = at 20 (omega arith) in
      let w24 = at 24 (omega arith) in
      record {
        magic = word_same image h (omega arith) ∙ ok.magic;
        fits = rw w4 (ok.fits);
        version = rw w20 (ok.version);
        last_comp_version = rw w24 (ok.last_comp_version);
        struct_pos = rw w8 (ok.struct_pos);
        struct_inside = rw (w8, w4) (ok.struct_inside);
        strings_pos = rw w12 (ok.strings_pos);
        strings_inside = rw (w12, w4) (ok.strings_inside);
      }
