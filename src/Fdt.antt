-- ===== src/Fdt.antt =====
-- src/fdt.c over src/include/uimage/fdt.h: the checks of a flattened device tree's header, and
-- the search for a property by the names of its node and of itself. Loops take fuel, since
-- neither a string nor the list of tags need have an end.
pub mod Header
pub mod Text
pub mod Layout
pub mod Find
pub mod Hostile
pub mod Local
pub mod Sound
pub mod Finishes
use qcom_ipq_aux_loader.Base.{
  ℕ, zero, suc, ◌+◌, ◌-◌, Bool, false, Option, none, some, List, [], ◌∷◌, ◌||◌, bit_and, not, add32,
  sub32, ltb, leb, ◌==◌, if◌then◌else◌,
}
use qcom_ipq_aux_loader.Base.Int.{ℤ, pos, minus}
use qcom_ipq_aux_loader.Machine.Memory.{Memory, load8, load32}
use qcom_ipq_aux_loader.Board.{ntohl}

abbrev pub fdt_magic_word : ℕ
fdt_magic_word = 0xd00d_feed

abbrev pub fdt_tagsize : ℕ
fdt_tagsize = 4

abbrev pub fdt_begin_node : ℕ
fdt_begin_node = 1

abbrev pub fdt_end_node : ℕ
fdt_end_node = 2

abbrev pub fdt_prop : ℕ
fdt_prop = 3

abbrev pub fdt_nop : ℕ
fdt_nop = 4

abbrev pub fdt_end : ℕ
fdt_end = 9

-- `sizeof(struct fdt_property)`: tag, len and nameoff.
abbrev pub sizeof_property : ℕ
sizeof_property = 12

abbrev pub first_supported_version : ℕ
first_supported_version = 0x10

abbrev pub last_supported_version : ℕ
last_supported_version = 0x11

-- FDT_TAGALIGN
pub tagalign : ℕ → ℕ
tagalign x = bit_and (sub32 (add32 x fdt_tagsize) 1) 0xffff_fffc

module _ (mem : Memory) where
  -- A big-endian word of memory, as `ntohl(*(u32*)p)`.
  abbrev pub word : ℕ → ℕ
  word p = ntohl (load32 mem p)

  -- `s1` is a string literal of the source, without its NUL.
  unfoldable pub fdt_streq : List ℕ → ℕ → Bool
  fdt_streq [] s2 = load8 mem s2 == 0
  fdt_streq (c ∷ s1) s2 =
      let b = load8 mem s2 in
      if b == 0 then false else if c == b then fdt_streq s1 (add32 s2 1) else false

  -- `none` is a string whose NUL is not met within the fuel.
  unfoldable pub fdt_strlen_from : ℕ → ℕ → ℕ → Option ℕ
  fdt_strlen_from zero len s = none
  fdt_strlen_from (suc fuel) len s =
      let rest = fdt_strlen_from fuel (len + 1) (add32 s 1) in
      if load8 mem s == 0 then some len else rest

  unfoldable pub fdt_strlen : ℕ → ℕ → Option ℕ
  unfolding fdt_strlen_from
  fdt_strlen fuel s = fdt_strlen_from fuel 0 s

  unfoldable pub fdt_check_header : ℕ → ℕ → ℤ
  fdt_check_header image data_size =
      let magic = word image in
      let totalsize = word (add32 image 4) in
      let off_dt_struct = word (add32 image 8) in
      let off_dt_strings = word (add32 image 12) in
      let version = word (add32 image 20) in
      let last_comp_version = word (add32 image 24) in
      if not (magic == fdt_magic_word)
      then minus 1
      else if ltb data_size totalsize
      then minus 2
      else if ltb version first_supported_version
      then minus 3
      else if ltb last_supported_version last_comp_version
      then minus 4
      else if off_dt_struct == 0 || leb totalsize off_dt_struct
      then minus 5
      else if off_dt_strings == 0 || leb totalsize off_dt_strings
      then minus 6
      else pos 0

-- What the caller gets: the returned pointer (0 is NULL) and the word stored through `lenp_ret`.
pub record Reply : Type 0 where
  pub ptr : ℕ
  pub len : ℕ

abbrev pub null : Reply
null = record { ptr = 0; len = 0 }

-- One round of `while(1)`: go on at a new offset, return, or lose the way in an endless string.
pub data Round : Type 0 where
  go : ℕ → Bool → Round
  return : Reply → Round
  lost : Round

-- `mem` holds the blob; `p`, `n` and `t` point to its tags, its strings and its end.
module _ (mem : Memory) (p n t : ℕ) (node_name prop_name : List ℕ) where
  abbrev align_and_go : ℕ → Bool → Round
  align_and_go offset found = go (tagalign offset) found

  unfoldable pub begin_node : ℕ → ℕ → Round
  begin_node fuel offset =
      let found = fdt_streq mem node_name (add32 p offset) in
      elim (fdt_strlen mem fuel (add32 p offset)) [
        | none ↦ lost
        | some len ↦ align_and_go (add32 offset (add32 len 1)) found
      ]

  -- `offset` is behind the tag word.
  unfoldable pub property : ℕ → Bool → Round
  property offset found =
      let lenp = add32 p offset in
      let prop = sub32 (add32 p offset) fdt_tagsize in
      let cur_prop_name = add32 n (word mem (add32 prop 8)) in
      let next = add32 offset (add32 (sizeof_property - fdt_tagsize) (word mem lenp)) in
      if found
      then (if leb t (add32 prop sizeof_property)
          then return null
          else if leb t cur_prop_name
          then return null
          else if fdt_streq mem prop_name cur_prop_name
          then return (record { ptr = add32 prop sizeof_property; len = word mem lenp })
          else align_and_go next found)
      else align_and_go next found

  unfoldable pub round : ℕ → ℕ → Bool → Round
  round fuel offset found =
      let tagp = add32 p offset in
      let tag = word mem tagp in
      let offset' = add32 offset fdt_tagsize in
      if leb t (add32 tagp 4)
      then return null
      else if tag == fdt_end
      then return null
      else if tag == fdt_begin_node
      then begin_node fuel offset'
      else if tag == fdt_prop
      then property offset' found
      else if tag == fdt_end_node
      then align_and_go offset' false
      else if tag == fdt_nop
      then align_and_go offset' found
      else return null

  -- `none`: not finished within `rounds` rounds.
  unfoldable pub get_prop_loop : ℕ → ℕ → ℕ → Bool → Option Reply
  get_prop_loop fuel zero offset found = none
  get_prop_loop fuel (suc rounds) offset found = elim (round fuel offset found) [
    | go offset' found' ↦ get_prop_loop fuel rounds offset' found'
    | return r ↦ some r
    | lost ↦ none
  ]

-- `fdt_get_prop(data, node_name, prop_name, lenp_ret)`
unfoldable pub fdt_get_prop : Memory → ℕ → ℕ → List ℕ → List ℕ → Option Reply
unfolding get_prop_loop round begin_node property tagalign
fdt_get_prop mem fuel image node_name prop_name =
    let off_dt_struct = word mem (add32 image 8) in
    let off_dt_strings = word mem (add32 image 12) in
    let totalsize = word mem (add32 image 4) in
    get_prop_loop mem (add32 image off_dt_struct) (add32 image off_dt_strings)
      (add32 image totalsize) node_name prop_name fuel fuel 0 false
