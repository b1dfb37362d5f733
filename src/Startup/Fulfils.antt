-- ===== src/Startup/Fulfils.antt =====
-- From the boot loader's jump to the head (src/head.S) to the kernel or the reboot.
use qcom_ipq_aux_loader.Base.{
  ℕ, ◌+◌, ◌^◌, ◌<◌, ◌≡◌, true, Bool-cases, inl, inr, ◌==◌, ==_iff, arith,
}
use qcom_ipq_aux_loader.Machine.Run.{Machine}
use qcom_ipq_aux_loader.Lzma.Returns.{Answers}
use qcom_ipq_aux_loader.Loader.Given.{Build}
use qcom_ipq_aux_loader.Loader.Settled.{Settles}
use qcom_ipq_aux_loader.Loader.Outcome.{since, wrong_arch-Reboots}
use qcom_ipq_aux_loader.Loader.Local.{Between}
use qcom_ipq_aux_loader.Loader.Local.Duties.{Duty-same}
use qcom_ipq_aux_loader.Loader.Duty.{
  Duty, Fulfils, Reboots-Fulfils, since-Fulfils, right_arch-Fulfils,
}
use qcom_ipq_aux_loader.Loader.{ipq_arch}
use qcom_ipq_aux_loader.Startup.{Image, initial, start_up}
use qcom_ipq_aux_loader.Startup.Entry.{IsPlaced, start_up-Enters}
use qcom_ipq_aux_loader.Startup.Linked.{as_linked, entry-Same}

right_start-Fulfils :
    (b : Build) (image : Image) (n words : ℕ) (m : Machine)
    → Settles b m
    → Answers b.decoder
    → IsPlaced b image n words
    → Between b image.text_base (image.text_base + n)
    → (d : Duty b (as_linked image n m.memory))
    → Fulfils b (as_linked image n m.memory) true d 4200 m (start_up b image 4200 m)
right_start-Fulfils b image n words m settles answers h place d =
    let entry = start_up-Enters b image n words 4200 m h in
    let ready = initial (record m { trace = entry.trace; memory = entry.memory }) in
    let mem = as_linked image n m.memory in
    let (d', back) =
      Duty-same b mem entry.memory image.text_base (image.text_base + n) place
        (entry-Same b image n words 4200 m h) d in
    rw entry.calls (
      since-Fulfils b mem d 4200 ready m _ entry.quiet
        (back 4200 ready _ (right_arch-Fulfils b ready settles answers d')))

-- With the payload and the BSS placed so that both can be moved and cleared without harm, in a
-- build without RB3011_PREINITS, or with a timer whose counter runs and a loop bound above 33 times
-- the readings that it takes to move, with an LZMA decoder that answers words and, for a FIT image
-- to start, unpacks its kernel's stream: the start-up code and `loader_main` together do what is to
-- be done with the image inside the payload, as it stands before anything is moved. With
-- architecture 4200 the kernel of an image that can be started is called at the image's entry
-- point, with 4200 as second parameter and both caches off. The memory then holds, for a legacy
-- image, its body at its load address, and for a FIT image the unpacked kernel at its load address
-- and the image's device tree in the workspace, which is the third parameter. For an image to turn
-- down, and with any other architecture number, the loader ends in its endless loop with the
-- watchdog armed for five seconds, and calls no kernel.
pub start_up-Fulfils :
    (b : Build) (image : Image) (n words arch : ℕ) (m : Machine)
    → Settles b m
    → Answers b.decoder
    → arch < 2 ^ 32
    → IsPlaced b image n words
    → Between b image.text_base (image.text_base + n)
    → (d : Duty b (as_linked image n m.memory))
    → Fulfils b (as_linked image n m.memory) (arch == ipq_arch) d arch m (start_up b image arch m)
start_up-Fulfils b image n words arch m settles answers small h place d =
    elim (Bool-cases (arch == ipq_arch)) [
      | inl e ↦
          let right : arch ≡ ipq_arch = (==_iff arch ipq_arch).0 e in
          rw (e, right) (right_start-Fulfils b image n words m settles answers h place d)
      | inr e ↦
          let entry = start_up-Enters b image n words arch m h in
          let ready = initial (record m { trace = entry.trace; memory = entry.memory }) in
          rw (e, entry.calls)
            (Reboots-Fulfils b (as_linked image n m.memory) d arch m _ (
              since ready m entry.quiet
                (wrong_arch-Reboots b arch ready settles small (ground arith))))
    ]
