-- ===== src/Loader/Ends.antt =====
-- How `loader_main` of src/loader.c can end.
use qcom_ipq_aux_loader.Base.{
  ℕ, ◌*◌, ◌^◌, ◌<◌, codes, List, [], ◌∷◌, ◌++◌, refl, ◌∙◌, ◌≡◌, true, arith,
}
use qcom_ipq_aux_loader.Base.Int.{int_word, ℤ, pos, negsuc, is_nonzero}
use qcom_ipq_aux_loader.Machine.Run.{Event, wrote, Machine, M, Run, ok, hang, and_then}
use qcom_ipq_aux_loader.Machine.Console.{say}
use qcom_ipq_aux_loader.Machine.Jumps.{jumps, jumps-puts}
use qcom_ipq_aux_loader.Machine.Console.Says.{Says, print-Says, print-then}
use qcom_ipq_aux_loader.Printf.Format.{word}
use qcom_ipq_aux_loader.Printf.Format.Typed.{typed}
use qcom_ipq_aux_loader.Drivers.Cpu.{Cpu, ipq4xxx, ipq806x}
use qcom_ipq_aux_loader.Drivers.Watchdog.{wdt, ticks}
use qcom_ipq_aux_loader.Drivers.Watchdog.Sequence.{
  IsArmed, setup_events, setup_lem, setup_events-IsArmed,
}
use qcom_ipq_aux_loader.Loader.Given.{Build}
use qcom_ipq_aux_loader.Loader.{reboot, arch_mismatch, load_failed, load_image, boot, banner}

pub jumps-setup_events :
    (cpu : Cpu) (period : ℕ) (events : List Event)
    → jumps (setup_events cpu period ++ events) ≡ jumps events
jumps-setup_events ipq4xxx period events = refl
jumps-setup_events ipq806x period events = refl

-- An endless loop, with the watchdog armed for five seconds and no call of the kernel.
pub record Reboots (cpu : Cpu) (m : Machine) (r : Run (Unit {0})) : Type 0 where
  pub end : Machine
  pub ends : r ≡ hang end
  pub armed : IsArmed cpu (5 * ticks cpu) end.trace
  pub no_jump : jumps end.trace ≡ jumps m.trace

reboot-Reboots : (b : Build) (m : Machine) → Reboots b.cpu m (reboot b m)
unfolding reboot
reboot-Reboots b m = record {
  end = record m { trace = setup_events b.cpu 5 ++ wrote (wdt b.cpu).en 0 ∷ m.trace };
  ends = rw (setup_lem b.cpu 5 m) refl;
  armed = setup_events-IsArmed b.cpu 5 _ (short b.cpu);
  no_jump = jumps-setup_events b.cpu 5 _;
}
  where
    short : (cpu : Cpu) → 5 * ticks cpu < 2 ^ 32
    short ipq4xxx = omega arith
    short ipq806x = omega arith

print-Reboots :
    (cpu : Cpu) (r : Run (Unit {0})) (k : Unit {0} → M (Unit {0})) (m : Machine)
    → Says tt m r
    → ((s : List ℕ) → Reboots cpu (say s m) (k tt (say s m)))
    → Reboots cpu m (and_then r k)
print-Reboots cpu r k m (s, e) rest =
    let h = rest s in
    rw e (record {
      end = h.end;
      ends = h.ends;
      armed = h.armed;
      no_jump = h.no_jump ∙ jumps-puts s m.trace;
    })

pub int_word-lt : (ret : ℤ) → int_word ret < 2 ^ 32
int_word-lt (pos n) = omega arith
int_word-lt (negsuc n) = omega arith

load_failed-Reboots : (b : Build) (ret : ℤ) (m : Machine) → Reboots b.cpu m (load_failed b ret m)
unfolding load_failed typed
load_failed-Reboots b ret m = print-Reboots b.cpu _ _ m (print-Says (codes "\n") [] refl tt m) λ s.
    print-Reboots b.cpu _ _ _
      (print-Says (codes "Op ret = %d\n") (word (int_word ret) ∷ []) refl (int_word-lt ret, tt) _)
      λ t.
        print-Reboots b.cpu _ _ _ (print-Says (codes "Auto reboot in 5 sec\n") [] refl tt _)
          λ u. reboot-Reboots b _

pub arch_mismatch-Reboots :
    (b : Build) (arch : ℕ) (m : Machine) → arch < 2 ^ 32 → Reboots b.cpu m (arch_mismatch b arch m)
unfolding arch_mismatch typed
arch_mismatch-Reboots b arch m h =
    print-Reboots b.cpu _ _ m
      (print-Says (codes "Critical alert ! ARCH mismatch: %u vs %u\n") (word arch ∷ word 4200 ∷ [])
        refl (h, (omega arith, tt)) m)
      λ s. reboot-Reboots b _

pub banner-Says : (m : Machine) → Says tt m (banner m)
unfolding banner typed
banner-Says m = print-then (codes "\n") [] _ _ m refl tt λ s.
    print-then (codes "OpenWrt kernel loader for Qualcomm IPQ-4XXX/IPQ-806X\n") [] _ _ _ refl tt
      λ t. print-Says (codes "Copyright 2019-2020 Sergey Sergeev <adron@mstnt.com>\n") [] refl tt _

-- Where the image is refused with an error code, `loader_main`'s part behind the architecture
-- check ends in its endless loop with the watchdog armed for five seconds, and does not call the
-- kernel.
pub refused-Reboots :
    (b : Build) (ret : ℤ) (m m' : Machine)
    → load_image b m ≡ ok ret m'
    → is_nonzero ret ≡ true
    → Reboots b.cpu m' (boot b m)
unfolding boot
refused-Reboots b ret m m' e bad = rw (e, bad) (load_failed-Reboots b ret m')
