-- ===== src/Drivers/Mdio/Polling.antt =====
-- The transactions of src/mdio.c on a machine whose timer runs.
use qcom_ipq_aux_loader.Base.{ℕ, ◌*◌, ◌<◌, ◌≤◌, ◌≡◌, List, ◌∙◌}
use qcom_ipq_aux_loader.Machine.Run.{Event, Machine, M, Run, ok, and_then}
use qcom_ipq_aux_loader.Machine.Jumps.{jumps}
use qcom_ipq_aux_loader.Machine.Loads.{jumps-log}
use qcom_ipq_aux_loader.Drivers.Timer.{in_ticks, udelay}
use qcom_ipq_aux_loader.Drivers.Timer.Elapsed.{Runs, udelay-Reads}
use qcom_ipq_aux_loader.Drivers.Mdio.{ipq_mdio_read, ipq_mdio_write}
use qcom_ipq_aux_loader.Drivers.Mdio.Transacts.{mdio_read-Reads, mdio_write-Reads}

-- A run that returns, changes nothing but the trace, and does not call the kernel.
abbrev pub Returns : {A : Type 0} → Machine → Run A → Type 0
Returns {A} m r =
    (a : A) × (events : List Event) × (r ≡ ok a (record m { trace = events }))
    × (jumps events ≡ jumps m.trace)

pub Returns-then :
    {A B : Type 0} (r : Run A) (k : A → M B) (m : Machine)
    → Returns m r
    → ((a : A) (events : List Event)
        → Returns (record m { trace = events }) (k a (record m { trace = events })))
    → Returns m (and_then r k)
Returns-then r k m (a, events, e, quiet) rest =
    let (b, events', f, quiet') = rest a events in (b, events', rw e f, quiet' ∙ quiet)

pub udelay-Returns :
    (reads usec : ℕ) (m : Machine)
    → (runs : Runs m.device) → in_ticks usec ≤ 32
    → 33 * runs.pace < reads
    → Returns m (udelay reads usec m)
udelay-Returns reads usec m runs short h =
    let (loads, e) = udelay-Reads reads usec m runs short h in (tt, _, e, jumps-log loads m.trace)

-- `ipq_mdio_read` returns, whatever the hardware answers, if the timer's counter runs and the
-- delays are given more than 33 times the readings that it takes to move, changes nothing but the
-- trace, and does not call the kernel.
pub mdio_read-Returns :
    (reads phy reg : ℕ) (m : Machine)
    → (runs : Runs m.device) → 33 * runs.pace < reads
    → Returns m (ipq_mdio_read reads phy reg m)
mdio_read-Returns reads phy reg m runs h =
    let (a, loads, e, answer) = mdio_read-Reads reads phy reg m runs h in
    (a, _, e, jumps-log loads _)

-- `ipq_mdio_write` returns, whatever the hardware answers, if the timer's counter runs and the
-- delays are given more than 33 times the readings that it takes to move, changes nothing but the
-- trace, and does not call the kernel.
pub mdio_write-Returns :
    (reads phy reg value : ℕ) (m : Machine)
    → (runs : Runs m.device) → 33 * runs.pace < reads
    → Returns m (ipq_mdio_write reads phy reg value m)
mdio_write-Returns reads phy reg value m runs h =
    let (a, loads, e, answer) = mdio_write-Reads reads phy reg value m runs h in
    (a, _, e, jumps-log loads _)
