-- ===== src/Fdt/Hostile.antt =====
-- The property search of src/fdt.c and length fields that make the 32-bit offset wrap around.
use qcom_ipq_aux_loader.Base.{
  ℕ, zero, suc, ◌+◌, ◌*◌, ◌-◌, ◌^◌, ◌<◌, ◌≡◌, refl, false, none, List, arith, add32,
}
use qcom_ipq_aux_loader.Machine.Memory.{Memory}
use qcom_ipq_aux_loader.Fdt.{word, fdt_prop, go, round, property, get_prop_loop, fdt_get_prop}
use qcom_ipq_aux_loader.Fdt.Layout.{tagalign_lem}

-- A property tag at `offset` whose length is -12, below the end of the blob.
pub record IsTrap (mem : Memory) (p t offset : ℕ) : Type 0 where
  pub bound : t < 2 ^ 32
  pub inside : p + offset + 4 < t
  pub tag : word mem (p + offset) ≡ fdt_prop
  pub len : word mem (p + offset + 4) ≡ 2 ^ 32 - 12

module _ (mem : Memory) (p n t : ℕ) (node_name prop_name : List ℕ) where
  round-IsTrap :
      (fuel quarter : ℕ)
      → IsTrap mem p t (4 * quarter)
      → round mem p n t node_name prop_name fuel (4 * quarter) false ≡ go (4 * quarter) false
  unfolding round property
  round-IsTrap fuel quarter h =
      let at : add32 p (4 * quarter) ≡ p + 4 * quarter = omega arith in
      let next : add32 (4 * quarter) 4 ≡ 4 * quarter + 4 = omega arith in
      let behind : add32 p (4 * quarter + 4) ≡ p + 4 * quarter + 4 = omega arith in
      let wraps : add32 (4 * quarter + 4) (add32 8 (2 ^ 32 - 12)) ≡ 4 * quarter = omega arith in
      ground (arith, tagalign_lem (4 * quarter))

  get_prop_loop-IsTrap :
      (fuel rounds quarter : ℕ)
      → IsTrap mem p t (4 * quarter)
      → get_prop_loop mem p n t node_name prop_name fuel rounds (4 * quarter) false ≡ none
  unfolding get_prop_loop
  get_prop_loop-IsTrap fuel zero quarter h = refl
  get_prop_loop-IsTrap fuel (suc rounds) quarter h =
      rw (round-IsTrap fuel quarter h, get_prop_loop) (get_prop_loop-IsTrap fuel rounds quarter h)

-- On a blob whose first tag is a property with the length field 0xfffffff4, with room for that tag
-- before the blob's end, `fdt_get_prop` does not return: no amount of fuel is enough.
pub get_prop-IsTrap :
    (mem : Memory) (image fuel : ℕ) (node_name prop_name : List ℕ)
    → IsTrap mem (add32 image (word mem (add32 image 8))) (add32 image (word mem (add32 image 4))) 0
    → fdt_get_prop mem fuel image node_name prop_name ≡ none
unfolding fdt_get_prop
get_prop-IsTrap mem image fuel node_name prop_name h =
    get_prop_loop-IsTrap mem _ _ _ node_name prop_name fuel fuel 0 h
