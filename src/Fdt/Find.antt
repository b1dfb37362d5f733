-- ===== src/Fdt/Find.antt =====
-- `fdt_get_prop` of src/fdt.c against the search of a list of tags.
use qcom_ipq_aux_loader.Base.{
  ℕ, zero, suc, ◌+◌, ◌&&◌, refl, if◌then◌else◌, ◌^◌, ◌≤◌, ◌<◌, ◌≡◌, Bool, false, some, List, [],
  ◌∷◌, arith, length, add32, sub32,
}
use qcom_ipq_aux_loader.Machine.Memory.{Memory, load32_be}
use qcom_ipq_aux_loader.Board.Swap.{ntohl-load32}
use qcom_ipq_aux_loader.Fdt.{
  word, fdt_strlen, fdt_streq, Round, go, return, null, begin_node, property, round, get_prop_loop,
  fdt_get_prop,
}
use qcom_ipq_aux_loader.Fdt.Text.{IsText, CString, same_text, fdt_streq_lem, fdt_strlen_lem}
use qcom_ipq_aux_loader.Fdt.Layout.{
  Tag, opens, prop, closes, nop, tagalign_lem, after, Stands, Lays, find,
}

module _ (mem : Memory) (p n t : ℕ) (node_name prop_name : List ℕ) (bound : t < 2 ^ 32)
    (node_text : IsText node_name) (prop_text : IsText prop_name) where
  begin_node_lem :
      (fuel offset : ℕ) (name : List ℕ)
      → CString mem (p + offset + 4) name
      → p + offset + 4 + length name + 8 < t
      → length name < fuel
      → begin_node mem p n t node_name prop_name fuel (offset + 4)
        ≡ go (after (opens name) offset) (same_text node_name name)
  unfolding begin_node
  begin_node_lem fuel offset name text inside enough =
      let at : add32 p (offset + 4) ≡ p + offset + 4 = omega arith in
      let next : add32 (offset + 4) (add32 (length name) 1) ≡ offset + 4 + (length name + 1) =
        omega arith in
      let measured : fdt_strlen mem fuel (add32 p (offset + 4)) ≡ some (length name) =
        rw at (fdt_strlen_lem mem fuel (p + offset + 4) name text (omega arith) enough) in
      let compared : fdt_streq mem node_name (add32 p (offset + 4)) ≡ same_text node_name name =
        rw at (fdt_streq_lem mem (p + offset + 4) node_name name node_text text (omega arith)) in
      ground (arith, tagalign_lem (offset + 4 + (length name + 1)))

  property_lem :
      (offset : ℕ) (found : Bool) (name : List ℕ) (len : ℕ)
      → Stands mem p n t (prop name len) offset
      → property mem p n t node_name prop_name (offset + 4) found ≡ (
          if found && same_text prop_name name
          then return (record { ptr = p + offset + 12; len = len })
          else go (after (prop name len) offset) found)
  unfolding property
  property_lem offset found name len (is_prop, is_len, inside, text, text_inside) =
      let at : add32 p (offset + 4) ≡ p + offset + 4 = omega arith in
      let start : sub32 (add32 p (offset + 4)) 4 ≡ p + offset = omega arith in
      let value : add32 (p + offset) 12 ≡ p + offset + 12 = omega arith in
      let name_at : add32 (p + offset) 8 ≡ p + offset + 8 = omega arith in
      let called : add32 n (word mem (p + offset + 8)) ≡ n + word mem (p + offset + 8) =
        omega arith in
      let next : add32 (offset + 4) (add32 8 len) ≡ offset + 4 + (8 + len) = omega arith in
      let compared = fdt_streq_lem mem _ prop_name name prop_text text (omega arith) in
      ground (arith, tagalign_lem (offset + 4 + (8 + len)))

  -- One round at a tag that stands there does what the list says.
  abbrev expected : Tag → ℕ → Bool → Round
  expected (opens name) offset found = go (after (opens name) offset) (same_text node_name name)
  expected (prop name len) offset found =
      if found && same_text prop_name name
      then return (record { ptr = p + offset + 12; len = len })
      else go (after (prop name len) offset) found
  expected closes offset found = go (after closes offset) false
  expected nop offset found = go (after nop offset) found

  round_lem :
      (fuel offset : ℕ) (found : Bool) (g : Tag)
      → Stands mem p n t g offset
      → t ≤ fuel
      → round mem p n t node_name prop_name fuel offset found ≡ expected g offset found
  round_lem fuel offset found (opens name) (tag, text, inside) enough =
      let at : add32 p offset ≡ p + offset = omega arith in
      let next : add32 offset 4 ≡ offset + 4 = omega arith in
      let rest = begin_node_lem fuel offset name text inside (omega arith) in
      unfold round in ground arith
  round_lem fuel offset found (prop name len) s enough =
      let at : add32 p offset ≡ p + offset = omega arith in
      let next : add32 offset 4 ≡ offset + 4 = omega arith in
      let rest = property_lem offset found name len s in unfold round in ground arith
  round_lem fuel offset found closes (tag, inside) enough =
      let at : add32 p offset ≡ p + offset = omega arith in
      let next : add32 offset 4 ≡ offset + 4 = omega arith in
      unfold round in ground (arith, tagalign_lem (offset + 4))
  round_lem fuel offset found nop (tag, inside) enough =
      let at : add32 p offset ≡ p + offset = omega arith in
      let next : add32 offset 4 ≡ offset + 4 = omega arith in
      unfold round in ground (arith, tagalign_lem (offset + 4))

  round_end :
      (fuel offset : ℕ) (found : Bool)
      → Lays mem p n t [] offset
      → round mem p n t node_name prop_name fuel offset found ≡ return null
  round_end fuel offset found (tag, inside) =
      let at : add32 p offset ≡ p + offset = omega arith in unfold round in ground arith

  get_prop_loop_lem :
      (gs : List Tag) (fuel rounds offset : ℕ) (found : Bool)
      → Lays mem p n t gs offset
      → t ≤ fuel
      → length gs < rounds
      → get_prop_loop mem p n t node_name prop_name fuel rounds offset found
        ≡ some (find p node_name prop_name found gs offset)
  unfolding get_prop_loop
  get_prop_loop_lem gs fuel zero offset found l enough h = elim h [ ]
  get_prop_loop_lem [] fuel (suc rounds) offset found l enough h =
      rw (round_end fuel offset found l, get_prop_loop) refl
  get_prop_loop_lem (opens name ∷ gs) fuel (suc rounds) offset found (s, l) enough h =
      rw (round_lem fuel offset found (opens name) s enough, get_prop_loop)
        (get_prop_loop_lem gs fuel rounds _ _ l enough (omega arith))
  get_prop_loop_lem (prop name len ∷ gs) fuel (suc rounds) offset found (s, l) enough h =
      let rest =
        get_prop_loop_lem gs fuel rounds (after (prop name len) offset) found l enough
          (omega arith) in
      ground (arith, round_lem fuel offset found (prop name len) s enough, rest)
  get_prop_loop_lem (closes ∷ gs) fuel (suc rounds) offset found (s, l) enough h =
      rw (round_lem fuel offset found closes s enough, get_prop_loop)
        (get_prop_loop_lem gs fuel rounds _ _ l enough (omega arith))
  get_prop_loop_lem (nop ∷ gs) fuel (suc rounds) offset found (s, l) enough h =
      rw (round_lem fuel offset found nop s enough, get_prop_loop)
        (get_prop_loop_lem gs fuel rounds _ _ l enough (omega arith))

-- Each tag takes at least a word.
Lays-length :
    (mem : Memory) (p n t : ℕ) (gs : List Tag) (offset : ℕ)
    → Lays mem p n t gs offset
    → p + offset + length gs < t
Lays-length mem p n t [] offset l = omega arith
Lays-length mem p n t (opens name ∷ gs) offset l =
    omega (arith, Lays-length mem p n t gs (after (opens name) offset) l.1)
Lays-length mem p n t (prop name len ∷ gs) offset l =
    omega (arith, Lays-length mem p n t gs (after (prop name len) offset) l.1)
Lays-length mem p n t (closes ∷ gs) offset l =
    omega (arith, Lays-length mem p n t gs (after closes offset) l.1)
Lays-length mem p n t (nop ∷ gs) offset l =
    omega (arith, Lays-length mem p n t gs (after nop offset) l.1)

-- A blob at `image` whose header points to a laid out structure block, inside the address space.
pub record IsBlob (mem : Memory) (image : ℕ) (gs : List Tag) : Type 0 where
  pub p : ℕ
  pub n : ℕ
  pub t : ℕ
  pub struct_at : p ≡ image + load32_be mem (image + 8)
  pub strings_at : n ≡ image + load32_be mem (image + 12)
  pub ends_at : t ≡ image + load32_be mem (image + 4)
  pub bound : t < 2 ^ 32
  pub strings_before : n < t
  pub image_before : image + 24 < t
  pub tags : Lays mem p n t gs 0

-- An address that the header gives as an offset.
header_address :
    (mem : Memory) (image k x : ℕ)
    → image + k < 2 ^ 32
    → x < 2 ^ 32
    → x ≡ image + load32_be mem (image + k)
    → add32 image (word mem (add32 image k)) ≡ x
header_address mem image k x in_range x_lt e =
    let at : add32 image k ≡ image + k = omega arith in rw (at, ntohl-load32) (omega arith)

-- On a well-formed blob, with fuel for the blob's addresses, `fdt_get_prop` returns and gives the
-- value pointer and length that the search of the tag list gives, or NULL and 0 where the list
-- has no such property.
pub get_prop-find :
    (mem : Memory) (image fuel : ℕ) (gs : List Tag) (node_name prop_name : List ℕ)
    → (b : IsBlob mem image gs) → IsText node_name
    → IsText prop_name
    → b.t ≤ fuel
    → fdt_get_prop mem fuel image node_name prop_name
      ≡ some (find b.p node_name prop_name false gs 0)
unfolding fdt_get_prop
get_prop-find mem image fuel gs node_name prop_name b nt pt enough =
    let early = Lays-length mem b.p b.n b.t gs 0 b.tags in
    rw
      (
        header_address mem image 8 b.p (omega arith) (omega arith) b.struct_at,
        header_address mem image 12 b.n (omega arith) (omega arith) b.strings_at,
        header_address mem image 4 b.t (omega arith) (omega arith) b.ends_at,
      )
      (get_prop_loop_lem mem b.p b.n b.t node_name prop_name b.bound nt pt gs fuel fuel 0 false
        b.tags enough (omega arith))
