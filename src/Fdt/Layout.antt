-- ===== src/Fdt/Layout.antt =====
-- A tree's structure block as a list of tags, how it stands in memory, and what the search for
-- a property means on the list.
use qcom_ipq_aux_loader.Base.{
  ℕ, ◌+◌, ◌*◌, ◌/◌, ◌^◌, ◌≤◌, ◌<◌, ◌≡◌, ◌≢◌, refl, Bool, false, List, [], ◌∷◌, ◌&&◌, arith, length,
  add32, sub32, if◌then◌else◌, Bool-cases, inl, inr,
}
use qcom_ipq_aux_loader.Base.Bits.{bit_and_align}
use qcom_ipq_aux_loader.Machine.Memory.{Memory}
use qcom_ipq_aux_loader.Fdt.{
  word, fdt_begin_node, fdt_end_node, fdt_prop, fdt_nop, fdt_end, tagalign, Reply, null,
}
use qcom_ipq_aux_loader.Fdt.Text.{CString, same_text}

-- A property has a name and the size of its value.
pub data Tag : Type 0 where
  opens : List ℕ → Tag
  prop : List ℕ → ℕ → Tag
  closes nop : Tag

-- The next multiple of four.
abbrev pub aligned : ℕ → ℕ
aligned x = (x + 3) / 4 * 4

pub tagalign_lem : (x : ℕ) → x + 4 < 2 ^ 32 → tagalign x ≡ aligned x
unfolding tagalign
tagalign_lem x h =
    let inside : sub32 (add32 x 4) 1 ≡ x + 3 = omega arith in
    rw inside (bit_and_align (x + 3) (omega arith))

-- Where the tag behind this one stands, as an offset from the start of the block.
abbrev pub after : Tag → ℕ → ℕ
after (opens name) offset = aligned (offset + 4 + (length name + 1))
after (prop name len) offset = aligned (offset + 4 + (8 + len))
after closes offset = aligned (offset + 4)
after nop offset = aligned (offset + 4)

-- The block starts at `p`, the strings at `n`, and the blob ends at `t`.
module _ (mem : Memory) (p n t : ℕ) where
  abbrev pub Stands : Tag → ℕ → Type 0
  Stands (opens name) offset =
      (word mem (p + offset) ≡ fdt_begin_node)
      × CString mem (p + offset + 4) name
      × (p + offset + 4 + length name + 8 < t)
  Stands (prop name len) offset =
      (word mem (p + offset) ≡ fdt_prop)
      × (word mem (p + offset + 4) ≡ len)
      × (p + offset + 12 + len + 8 < t)
      × CString mem (n + word mem (p + offset + 8)) name
      × (n + word mem (p + offset + 8) + length name < t)
  Stands closes offset = (word mem (p + offset) ≡ fdt_end_node) × (p + offset + 12 < t)
  Stands nop offset = (word mem (p + offset) ≡ fdt_nop) × (p + offset + 12 < t)

  -- The tags from `offset` on, up to FDT_END.
  abbrev pub Lays : List Tag → ℕ → Type 0
  Lays [] offset = (word mem (p + offset) ≡ fdt_end) × (p + offset + 4 < t)
  Lays (g ∷ gs) offset = Stands g offset × Lays gs (after g offset)

-- The value of the first property `prop_name` that follows the start of a node `node_name` with
-- no other start and no end of a node between them.
module _ (p : ℕ) (node_name prop_name : List ℕ) where
  abbrev pub find : Bool → List Tag → ℕ → Reply
  find found [] offset = null
  find found (opens name ∷ gs) offset =
      find (same_text node_name name) gs (after (opens name) offset)
  find found (prop name len ∷ gs) offset =
      if found && same_text prop_name name
      then record { ptr = p + offset + 12; len = len }
      else find found gs (after (prop name len) offset)
  find found (closes ∷ gs) offset = find false gs (after closes offset)
  find found (nop ∷ gs) offset = find found gs (after nop offset)

-- The length of what is found is a word.
pub find-len :
    (mem : Memory) (p n t : ℕ) (node_name prop_name : List ℕ) (bound : t < 2 ^ 32) (found : Bool)
    (gs : List Tag) (offset : ℕ)
    → Lays mem p n t gs offset
    → (find p node_name prop_name found gs offset).len < 2 ^ 32
find-len mem p n t a b bound found [] offset lays = omega arith
find-len mem p n t a b bound found (opens name ∷ gs) offset (s, lays) =
    find-len mem p n t a b bound (same_text a name) gs (after (opens name) offset) lays
find-len mem p n t a b bound found (closes ∷ gs) offset (s, lays) =
    find-len mem p n t a b bound false gs (after closes offset) lays
find-len mem p n t a b bound found (nop ∷ gs) offset (s, lays) =
    find-len mem p n t a b bound found gs (after nop offset) lays
find-len mem p n t a b bound found (prop name len ∷ gs) offset (s, lays) =
    let rest = find-len mem p n t a b bound found gs (after (prop name len) offset) lays in
    let (tag, size, inside, text, text_inside) = s in
    elim (Bool-cases (found && same_text b name)) [ inl e ↦ rw e (omega arith) | inr e ↦ rw e rest ]

-- What is found stands in the block, with its first two words before the blob's end.
pub find-inside :
    (mem : Memory) (p n t : ℕ) (node_name prop_name : List ℕ) (found : Bool) (gs : List Tag)
    (offset : ℕ)
    → Lays mem p n t gs offset
    → (find p node_name prop_name found gs offset).ptr ≢ 0
    → (p ≤ (find p node_name prop_name found gs offset).ptr)
      × ((find p node_name prop_name found gs offset).ptr + 8 < t)
find-inside mem p n t a b found [] offset lays h = absurd (h refl)
find-inside mem p n t a b found (opens name ∷ gs) offset (s, lays) h =
    find-inside mem p n t a b (same_text a name) gs (after (opens name) offset) lays h
find-inside mem p n t a b found (closes ∷ gs) offset (s, lays) h =
    find-inside mem p n t a b false gs (after closes offset) lays h
find-inside mem p n t a b found (nop ∷ gs) offset (s, lays) h =
    find-inside mem p n t a b found gs (after nop offset) lays h
find-inside mem p n t a b found (prop name len ∷ gs) offset (s, lays) h =
    let (tag, size, inside, text, text_inside) = s in
    elim (Bool-cases (found && same_text b name)) [
      | inl e ↦ rw e (omega arith)
      | inr e ↦
          let h' = rw e at h in
          rw e (find-inside mem p n t a b found gs (after (prop name len) offset) lays h')
    ]
