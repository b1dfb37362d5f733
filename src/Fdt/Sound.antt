-- ===== src/Fdt/Sound.antt =====
-- What the property search of src/fdt.c returns on a blob of any content, well-formed or not.
use qcom_ipq_aux_loader.Base.{
  ℕ, zero, suc, ◌^◌, ◌<◌, ◌≡◌, refl, subst, ◌⊎◌, inl, inr, Bool, true, false, Option, none, some,
  List, arith, add32, sub32, leb, if◌then◌else◌,
}
use qcom_ipq_aux_loader.Machine.Memory.{Memory}
use qcom_ipq_aux_loader.Fdt.{
  word, fdt_prop, fdt_streq, fdt_strlen, Reply, null, Round, tagalign, go, return, lost, round,
  property, begin_node, get_prop_loop, fdt_get_prop,
}

-- The value of a property tag of this name, with its start and its name's start below the end.
pub record IsProperty (mem : Memory) (n t : ℕ) (prop_name : List ℕ) (r : Reply) : Type 0 where
  pub inside : r.ptr < t
  pub tag : word mem (sub32 r.ptr 12) ≡ fdt_prop
  pub len : r.len ≡ word mem (sub32 r.ptr 8)
  pub name_inside : add32 n (word mem (sub32 r.ptr 4)) < t
  pub name : fdt_streq mem prop_name (add32 n (word mem (sub32 r.ptr 4))) ≡ true

abbrev pub IsAnswer : Memory → ℕ → ℕ → List ℕ → Reply → Type 0
IsAnswer mem n t prop_name r = (r ≡ null) ⊎ IsProperty mem n t prop_name r

module _ (mem : Memory) (p n t : ℕ) (node_name prop_name : List ℕ) where
  data Sound : Round → Type 0 where
    goes : (offset : ℕ) (found : Bool) → Sound (go offset found)
    answers : {r : Reply} → IsAnswer mem n t prop_name r → Sound (return r)
    loses : Sound lost

  returns-null : Sound (return null)
  returns-null = answers (inl refl)

  Sound-if :
      (b : Bool) (x y : Round)
      → ((b ≡ true) → Sound x)
      → ((b ≡ false) → Sound y)
      → Sound (if b then x else y)
  Sound-if true x y f g = f refl
  Sound-if false x y f g = g refl

  begin_node-Sound :
      (fuel offset : ℕ) → Sound (begin_node mem p n t node_name prop_name fuel offset)
  unfolding begin_node
  begin_node-Sound fuel offset =
      elim (fdt_strlen mem fuel (add32 p offset))
        as (λ len. Sound (elim len [
          | none ↦ lost
          | some len ↦
              go (tagalign (add32 offset (add32 len 1))) (fdt_streq mem node_name (add32 p offset))
        ])) [ none ↦ loses | some len ↦ goes _ _ ]

  found-IsProperty :
      (lenp : ℕ)
      → lenp < 2 ^ 32
      → let prop = sub32 lenp 4 in
        word mem prop ≡ fdt_prop
        → leb t (add32 prop 12) ≡ false
        → leb t (add32 n (word mem (add32 prop 8))) ≡ false
        → fdt_streq mem prop_name (add32 n (word mem (add32 prop 8))) ≡ true
        → IsProperty mem n t prop_name (record { ptr = add32 prop 12; len = word mem lenp })
  found-IsProperty lenp small tag inside name_inside name =
      let prop = sub32 lenp 4 in
      let at_tag : sub32 (add32 prop 12) 12 ≡ prop = omega arith in
      let at_len : sub32 (add32 prop 12) 8 ≡ lenp = omega arith in
      let at_name : sub32 (add32 prop 12) 4 ≡ add32 prop 8 = omega arith in
      record {
        inside = ground arith;
        tag = rw at_tag tag;
        len = rw at_len refl;
        name_inside = rw at_name (ground arith);
        name = rw at_name name;
      }

  property-Sound :
      (offset : ℕ) (found : Bool)
      → word mem (sub32 (add32 p offset) 4) ≡ fdt_prop
      → Sound (property mem p n t node_name prop_name offset found)
  unfolding property
  property-Sound offset found tag =
      Sound-if found _ _
        (λ _.
          Sound-if _ _ _ (λ _. returns-null)
            λ inside.
              Sound-if _ _ _ (λ _. returns-null)
                λ name_inside.
                  Sound-if _ _ _
                    (λ name. answers (
                      inr (
                        found-IsProperty (add32 p offset) (omega arith) tag inside name_inside
                          name)))
                    λ _. goes _ _)
        λ _. goes _ _

  round-Sound :
      (fuel offset : ℕ) (found : Bool)
      → Sound (round mem p n t node_name prop_name fuel offset found)
  unfolding round
  round-Sound fuel offset found =
      let back : sub32 (add32 p (add32 offset 4)) 4 ≡ add32 p offset = omega arith in
      let here : (word mem (add32 p offset) ≡ fdt_prop)
          → Sound (property mem p n t node_name prop_name (add32 offset 4) found) =
        λ tag. property-Sound (add32 offset 4) found (rw back tag) in
      let stays : (k : ℕ) (b : Bool) → Sound (go k b) = goes in
      ground (
        arith,
        returns-null,
        begin_node-Sound fuel (add32 offset 4),
        here,
        stays (tagalign (add32 offset 4)) false,
        stays (tagalign (add32 offset 4)) found,
      )

  abbrev Answers : Option Reply → Type 0
  Answers none = Unit
  Answers (some r) = IsAnswer mem n t prop_name r

  get_prop_loop-Answers :
      (fuel rounds offset : ℕ) (found : Bool)
      → Answers (get_prop_loop mem p n t node_name prop_name fuel rounds offset found)
  unfolding get_prop_loop
  get_prop_loop-Answers fuel zero offset found = tt
  get_prop_loop-Answers fuel (suc rounds) offset found =
      after-Sound (get_prop_loop-Answers fuel rounds)
        (round mem p n t node_name prop_name fuel offset found) (round-Sound fuel offset found)
    where
      after-Sound :
          ((offset' : ℕ) (found' : Bool)
            → Answers (get_prop_loop mem p n t node_name prop_name fuel rounds offset' found'))
          → (r : Round) → Sound r
          → Answers (elim r [
            | go offset' found' ↦
                get_prop_loop mem p n t node_name prop_name fuel rounds offset' found'
            | return r ↦ some r
            | lost ↦ none
          ])
      after-Sound rest _ (goes offset' found') = rest offset' found'
      after-Sound rest _ (answers h) = h
      after-Sound rest _ loses = tt

pub get_prop-IsAnswer :
    (mem : Memory) (image fuel : ℕ) (node_name prop_name : List ℕ) (r : Reply)
    → fdt_get_prop mem fuel image node_name prop_name ≡ some r
    → IsAnswer mem
        (add32 image (word mem (add32 image 12)))
        (add32 image (word mem (add32 image 4)))
        prop_name
        r
unfolding fdt_get_prop
get_prop-IsAnswer mem image fuel node_name prop_name r e =
    subst (Answers mem (add32 image (word mem (add32 image 8))) _ _ node_name prop_name) e
      (get_prop_loop-Answers mem _ _ _ node_name prop_name fuel fuel 0 false)
