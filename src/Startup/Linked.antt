-- ===== src/Startup/Linked.antt =====
-- What the start-up code (src/head.S) leaves of the payload.
use qcom_ipq_aux_loader.Base.{
  ℕ, ◌+◌, ◌-◌, ◌<◌, ◌≤◌, ◌≡◌, refl, sym, ◌∙◌, true, ◌&&◌, leb, ltb, if◌then◌else◌, arith, u32,
}
use qcom_ipq_aux_loader.Machine.Memory.{Memory, load8}
use qcom_ipq_aux_loader.Machine.Run.{Machine}
use qcom_ipq_aux_loader.Fdt.Local.{Same}
use qcom_ipq_aux_loader.Loader.Given.{Build}
use qcom_ipq_aux_loader.Startup.{Image}
use qcom_ipq_aux_loader.Startup.Entry.{payload, IsPlaced, start_up-Enters}

-- The memory as it would be if the payload had been loaded where it was linked to.
unfoldable pub as_linked : Image → ℕ → Memory → Memory
as_linked image n mem a =
    if leb image.text_base a && ltb a (image.text_base + n)
    then mem (payload image + (a - image.text_base))
    else mem a

-- A byte of the payload there.
linked_byte :
    (b : Build) (image : Image) (n words a : ℕ) (mem : Memory)
    → IsPlaced b image n words
    → image.text_base ≤ a
    → a < image.text_base + n
    → load8 (as_linked image n mem) a ≡ load8 mem (payload image + (a - image.text_base))
unfolding load8 as_linked
linked_byte b image n words a mem h above below =
    let word : u32 a ≡ a = omega (arith, h.dst_fits) in
    let word' : u32 (payload image + (a - image.text_base))
        ≡ payload image + (a - image.text_base) =
      omega (arith, h.src_fits) in
    let inside : (leb image.text_base a && ltb a (image.text_base + n)) ≡ true = ground arith in
    rw (word, word', inside) refl

-- What start-up leaves of the payload, where it is linked to.
pub entry-Same :
    (b : Build) (image : Image) (n words arch : ℕ) (m : Machine)
    → (h : IsPlaced b image n words)
    → Same
        (as_linked image n m.memory)
        (start_up-Enters b image n words arch m h).memory
        image.text_base
        (image.text_base + n)
entry-Same b image n words arch m h a above below =
    let entry = start_up-Enters b image n words arch m h in
    let at : image.text_base + (a - image.text_base) ≡ a = omega arith in
    let arrived = rw at at (entry.moved (a - image.text_base) (omega arith)) in
    arrived ∙ sym (linked_byte b image n words a m.memory h above below)
