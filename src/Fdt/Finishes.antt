-- ===== src/Fdt/Finishes.antt =====
-- The end of the property search of src/fdt.c on a blob of any content.
use qcom_ipq_aux_loader.Base.{
  ℕ, zero, suc, ◌+◌, ◌^◌, ◌<◌, ◌≤◌, ◌≡◌, refl, ap, ◌∙◌, inl, inr, Bool, false, none, Option, some,
  List, arith, add32, sub32, leb, ◌==◌, Bool-cases,
}
use qcom_ipq_aux_loader.Machine.Memory.{Memory, load8}
use qcom_ipq_aux_loader.Fdt.{
  word, fdt_prop, fdt_streq, fdt_strlen_from, fdt_strlen, Reply, Round, tagalign, go, return, lost,
  round, property, begin_node, get_prop_loop, fdt_get_prop,
}
use qcom_ipq_aux_loader.Fdt.Layout.{tagalign_lem}
use qcom_ipq_aux_loader.Fdt.Sound.{IsAnswer, get_prop-IsAnswer}

-- A blob of any content from `p` to `t`, with a NUL at `z` that ends every string that starts below
-- `t`, and with property tags whose lengths do not take the 32-bit offset around; and fuel for it.
pub record IsBounded (mem : Memory) (p t z fuel : ℕ) : Type 0 where
  pub some_fuel : 0 < fuel
  pub enough : z < p + fuel
  pub start : p + 4 < 2 ^ 32
  pub nul : load8 mem z ≡ 0
  pub past : t ≤ z + 1
  pub room : z + 8 < 2 ^ 32
  pub lengths :
      (a : ℕ) → p ≤ a → a + 4 < t → word mem a ≡ fdt_prop → a + 19 + word mem (a + 4) < 2 ^ 32

nul-later :
    (mem : Memory) (a z : ℕ) → load8 mem z ≡ 0 → a ≤ z → (load8 mem a == 0) ≡ false → a + 1 ≤ z
nul-later mem a z nul at e = ground arith

strlen_from-stops :
    (mem : Memory) (fuel len a z : ℕ)
    → load8 mem z ≡ 0
    → z < 2 ^ 32
    → a ≤ z
    → z < a + fuel
    → (k : ℕ) × (fdt_strlen_from mem fuel len a ≡ some k) × (a + k ≤ z + len)
unfolding fdt_strlen_from
strlen_from-stops mem zero len a z nul small at enough = absurd (omega arith)
strlen_from-stops mem (suc fuel) len a z nul small at enough =
    elim (Bool-cases (load8 mem a == 0)) [
      | inl e ↦ (len, rw e refl, omega arith)
      | inr e ↦
          let before : a + 1 ≤ z = nul-later mem a z nul at e in
          let next : add32 a 1 ≡ a + 1 = omega arith in
          let (k, f, high) =
            strlen_from-stops mem fuel (len + 1) (a + 1) z nul small before (omega arith) in
          (k, ground arith, omega arith)
    ]

-- The length of a string that starts not behind a NUL.
strlen-stops :
    (mem : Memory) (fuel a z : ℕ)
    → load8 mem z ≡ 0
    → z < 2 ^ 32
    → a ≤ z
    → z < a + fuel
    → (k : ℕ) × (fdt_strlen mem fuel a ≡ some k) × (a + k ≤ z)
unfolding fdt_strlen
strlen-stops mem fuel a z nul small at enough =
    let (k, e, high) = strlen_from-stops mem fuel 0 a z nul small at enough in (k, e, omega arith)

-- How a round ends: it goes on with a later tag, or it returns.
abbrev Moves : ℕ → ℕ → ℕ → Round → Type 0
Moves p t offset (go offset' found) =
    (p + offset + 4 < t) × (offset < offset') × (p + offset' + 4 < 2 ^ 32)
Moves p t offset (return r) = r.ptr + r.len + 7 < 2 ^ 32
Moves p t offset lost = ⊥

-- A search that returns NULL, or a value that ends below the end of the address space.
abbrev Yields : Option Reply → Type 0
Yields answer = (r : Reply) × (answer ≡ some r) × (r.ptr + r.len + 7 < 2 ^ 32)

-- A round that goes on `skipped` bytes behind the tag, up to the next multiple of four.
aligns :
    (p t offset skipped : ℕ) (found : Bool)
    → p + offset + 4 < t
    → p + offset + skipped + 7 < 2 ^ 32
    → 0 < skipped
    → Moves p t offset (go (tagalign (offset + skipped)) found)
aligns p t offset skipped found inside room forward =
    rw (tagalign_lem (offset + skipped) (omega arith)) (inside, omega arith, omega arith)

module _ (mem : Memory) (p n t z fuel : ℕ) (node_name prop_name : List ℕ)
    (h : IsBounded mem p t z fuel) where
  begin_node-Moves :
      (offset : ℕ)
      → p + offset + 4 < t
      → Moves p t offset (begin_node mem p n t node_name prop_name fuel (offset + 4))
  unfolding begin_node
  begin_node-Moves offset inside =
      let at : add32 p (offset + 4) ≡ p + offset + 4 = omega (arith, h.past, h.room) in
      let (k, e, high) =
        strlen-stops mem fuel (p + offset + 4) z h.nul (omega (arith, h.room))
          (omega (arith, h.past)) (omega (arith, h.enough)) in
      let next : add32 (offset + 4) (add32 k 1) ≡ offset + (4 + k + 1) = omega (arith, h.room) in
      let measured : fdt_strlen mem fuel (add32 p (offset + 4)) ≡ some k =
        ap (fdt_strlen mem fuel) at ∙ e in
      let shape : begin_node mem p n t node_name prop_name fuel (offset + 4)
          ≡ go (tagalign (offset + (4 + k + 1))) (fdt_streq mem node_name (add32 p (offset + 4))) =
        ground arith in
      rw shape (
        aligns p t offset (4 + k + 1) (fdt_streq mem node_name (add32 p (offset + 4))) inside
          (omega (arith, h.room)) (omega arith))

  property-Moves :
      (offset : ℕ) (found : Bool)
      → p + offset + 4 < t
      → word mem (p + offset) ≡ fdt_prop
      → Moves p t offset (property mem p n t node_name prop_name (offset + 4) found)
  unfolding property
  property-Moves offset found inside tag =
      let at : add32 p (offset + 4) ≡ p + offset + 4 = omega (arith, h.past, h.room) in
      let size = word mem (p + offset + 4) in
      let fits = h.lengths (p + offset) (omega arith) inside tag in
      let next : add32 (offset + 4) (add32 8 size) ≡ offset + (4 + (8 + size)) = omega arith in
      let go_on : Moves p t offset
          (go (tagalign (add32 (offset + 4) (add32 8 (word mem (add32 p (offset + 4)))))) found) =
        rw (at, next)
          (aligns p t offset (4 + (8 + size)) found inside (omega arith) (omega arith)) in
      let found_at : add32 (sub32 (add32 p (offset + 4)) 4) 12 ≡ p + offset + 12 = omega arith in
      let value : add32 (sub32 (add32 p (offset + 4)) 4) 12 + word mem (add32 p (offset + 4)) + 7
          < 2 ^ 32 =
        rw (found_at, at) (omega arith) in
      ground (arith, go_on, value)

  round-Moves :
      (offset : ℕ) (found : Bool)
      → p + offset + 4 < 2 ^ 32
      → Moves p t offset (round mem p n t node_name prop_name fuel offset found)
  unfolding round
  round-Moves offset found room =
      let at : add32 p offset ≡ p + offset = omega arith in
      let behind : add32 (p + offset) 4 ≡ p + offset + 4 = omega arith in
      let next : add32 offset 4 ≡ offset + 4 = omega arith in
      elim (Bool-cases (leb t (add32 (p + offset) 4))) [
        | inl over ↦ rw (at, over) (omega arith)
        | inr below ↦
            let inside : p + offset + 4 < t = ground arith in
            let stays : Moves p t offset (go (tagalign (add32 offset 4)) found) =
              rw next
                (aligns p t offset 4 found inside (omega (arith, h.past, h.room)) (omega arith)) in
            let opens : Moves p t offset
                (begin_node mem p n t node_name prop_name fuel (add32 offset 4)) =
              rw next (begin_node-Moves offset inside) in
            let holds : (word mem (add32 p offset) ≡ fdt_prop)
                → Moves p t offset (property mem p n t node_name prop_name (add32 offset 4) found) =
              λ tag. rw next (property-Moves offset found inside (rw at at tag)) in
            ground (arith, opens, stays, holds)
      ]

  get_prop_loop-Yields :
      (rounds offset : ℕ) (found : Bool)
      → p + offset + 4 < 2 ^ 32
      → 0 < rounds
      → t ≤ p + offset + rounds
      → Yields (get_prop_loop mem p n t node_name prop_name fuel rounds offset found)
  unfolding get_prop_loop
  get_prop_loop-Yields zero offset found room positive far = elim positive [ ]
  get_prop_loop-Yields (suc rounds) offset found room positive far =
      after-Moves offset rounds far
        (λ offset' found' next left near. get_prop_loop-Yields rounds offset' found' next left near)
        (round mem p n t node_name prop_name fuel offset found) (round-Moves offset found room)
    where
      after-Moves :
          (offset rounds : ℕ)
          → t ≤ p + offset + suc rounds
          → ((offset' : ℕ) (found' : Bool)
              → p + offset' + 4 < 2 ^ 32
              → 0 < rounds
              → t ≤ p + offset' + rounds
              → Yields (get_prop_loop mem p n t node_name prop_name fuel rounds offset' found'))
          → (end : Round) → Moves p t offset end
          → Yields (elim end [
            | go offset' found' ↦
                get_prop_loop mem p n t node_name prop_name fuel rounds offset' found'
            | return r ↦ some r
            | lost ↦ none
          ])
      after-Moves offset rounds far rest (go offset' found') (inside, later, room) =
          rest offset' found' room (omega arith) (omega arith)
      after-Moves offset rounds far rest (return r) inside = (r, refl, inside)
      after-Moves offset rounds far rest lost moves = absurd moves

-- For a blob of any content, whose first tag stands below the end of the address space, with a NUL
-- in its last byte or at a place behind, eight bytes or more before the end of the address space,
-- and with no property tag whose length field takes the search to the end of the address space or
-- around it: with more fuel than there are bytes from the first tag to that NUL, `fdt_get_prop`
-- returns, and what it returns is NULL, or a pointer below the blob's end that stands behind a
-- property tag, with the length field of that tag, and the tag's name starts below the blob's end
-- and is the name asked for. The value of that length ends below the end of the address space.
pub get_prop-Returns :
    (mem : Memory) (image fuel z : ℕ) (node_name prop_name : List ℕ)
    → IsBounded mem
        (add32 image (word mem (add32 image 8)))
        (add32 image (word mem (add32 image 4)))
        z
        fuel
    → (r : Reply) × (fdt_get_prop mem fuel image node_name prop_name ≡ some r)
      × (r.ptr + r.len + 7 < 2 ^ 32)
      × IsAnswer mem
          (add32 image (word mem (add32 image 12)))
          (add32 image (word mem (add32 image 4)))
          prop_name
          r
unfolding fdt_get_prop
get_prop-Returns mem image fuel z node_name prop_name h =
    let (r, e, inside) =
      get_prop_loop-Yields mem (add32 image (word mem (add32 image 8)))
        (add32 image (word mem (add32 image 12))) (add32 image (word mem (add32 image 4))) z fuel
        node_name prop_name h fuel 0 false (omega (arith, h.start)) h.some_fuel
        (omega (arith, h.past, h.enough)) in
    (r, e, inside, get_prop-IsAnswer mem image fuel node_name prop_name r e)
