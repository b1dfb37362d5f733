-- ===== src/Startup/Concludes.antt =====
-- From the boot loader's jump to the head (src/head.S) to the end, for a payload of any content.
use qcom_ipq_aux_loader.Base.{ℕ, ◌+◌, ◌^◌, ◌<◌, ◌==◌}
use qcom_ipq_aux_loader.Machine.Memory.{Memory}
use qcom_ipq_aux_loader.Machine.Run.{Machine}
use qcom_ipq_aux_loader.Lzma.Returns.{Answers}
use qcom_ipq_aux_loader.Fdt.Local.{Same}
use qcom_ipq_aux_loader.Loader.Given.{Build}
use qcom_ipq_aux_loader.Loader.Settled.{Settles}
use qcom_ipq_aux_loader.Loader.Outcome.{since-Follows}
use qcom_ipq_aux_loader.Loader.Meets.{IsLinked, FitBounded}
use qcom_ipq_aux_loader.Loader.Every.{Concludes, loader_main-Concludes}
use qcom_ipq_aux_loader.Loader.{ipq_arch}
use qcom_ipq_aux_loader.Startup.{Image, initial, start_up}
use qcom_ipq_aux_loader.Startup.Entry.{IsPlaced, start_up-Enters}
use qcom_ipq_aux_loader.Startup.Linked.{as_linked, entry-Same}

-- With the payload and the BSS placed so that both can be moved and cleared without harm, in a
-- build without RB3011_PREINITS, or with a timer whose counter runs and a loop bound above 33 times
-- the readings that it takes to move, and whatever words the LZMA decoder answers: for a payload of
-- any content, with room for a legacy header in the image and with its end below the last word of
-- the address space, the start-up code and `loader_main` together either call the kernel, with
-- architecture 4200 as second parameter and both caches off, or end in the endless loop with the
-- watchdog armed for five seconds, without a call of the kernel. For any other architecture number
-- than 4200 they do the second. Only an image whose FIT header is accepted has to meet a condition,
-- whatever stands outside of the payload: a NUL in its last byte or behind ends its strings, and no
-- property tag has a length field that takes the search to the end of the address space or around
-- it.
pub start_up-Concludes :
    (b : Build) (image : Image) (n words arch z : ℕ) (m : Machine)
    → Settles b m
    → IsLinked b
    → Answers b.decoder
    → arch < 2 ^ 32
    → IsPlaced b image n words
    → ((mem : Memory)
        → Same (as_linked image n m.memory) mem image.text_base (image.text_base + n)
        → FitBounded b mem z)
    → Concludes b.cpu arch m (start_up b image arch m)
start_up-Concludes b image n words arch z m settles linked answers small h bounded =
    let entry = start_up-Enters b image n words arch m h in
    let ready = initial (record m { trace = entry.trace; memory = entry.memory }) in
    let (v, follows) =
      loader_main-Concludes b arch ready z settles linked answers
        (bounded entry.memory (entry-Same b image n words arch m h)) small in
    rw entry.calls (v, since-Follows b.cpu arch _ (arch == ipq_arch) v ready m entry.quiet follows)
