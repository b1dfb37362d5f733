-- ===== src/Loader/Preinits/Finishes.antt =====
-- The preinits of src/loader.c on a machine whose timer runs.
use qcom_ipq_aux_loader.Base.{
  ℕ, zero, suc, ◌+◌, ◌*◌, ◌^◌, ◌<◌, ◌≤◌, ◌≡◌, refl, List, [], ◌∷◌, bit_or, codes, arith, Bool-cases,
  inl, inr, ◌==◌, All, true, ◌∙◌,
}
use qcom_ipq_aux_loader.Machine.Run.{Event, Machine, M, ok, and_then}
use qcom_ipq_aux_loader.Machine.Console.{print}
use qcom_ipq_aux_loader.Machine.Jumps.{jumps-puts}
use qcom_ipq_aux_loader.Machine.Console.Says.{print-Says}
use qcom_ipq_aux_loader.Drivers.Timer.Elapsed.{Runs}
use qcom_ipq_aux_loader.Printf.Format.{Arg, word}
use qcom_ipq_aux_loader.Printf.Format.Typed.{IsWord, typed}
use qcom_ipq_aux_loader.Drivers.Cpu.{ipq806x}
use qcom_ipq_aux_loader.Drivers.Timer.{timer_init, in_ticks, udelay, mdelay}
use qcom_ipq_aux_loader.Drivers.Gpio.{preset_output, gpio_tlmm_config, gpio_set_value}
use qcom_ipq_aux_loader.Drivers.Mdio.{ipq_phy_read, ipq_phy_write}
use qcom_ipq_aux_loader.Drivers.Mdio.Polling.{
  Returns, Returns-then, udelay-Returns, mdio_read-Returns, mdio_write-Returns,
}
use qcom_ipq_aux_loader.Loader.Preinits.{
  nss_gmac0_base, nss_gmac1_base, mii_bmcr, mii_physid1, bmcr_pdown, power_down, not_ready,
  wait_phy, each_phy, do_phys_pwdown, reset_switches, ipq806x_rb3011_preinits,
}

-- The machines that such runs lead to.
abbrev at : Machine → List Event → ℕ → Machine
at m events base = record m { trace = events; mdio_reg_base = base }

module _ (reads : ℕ) (m : Machine) (runs : Runs m.device) (enough : 33 * runs.pace < reads) where
  -- A step of a run, from a machine that earlier steps led to: it returns, and
  -- changes the trace alone.
  Steps : {A : Type 0} → M A → Type 0
  Steps c = (events : List Event) (base : ℕ) → Returns (at m events base) (c (at m events base))

  step :
      {A B : Type 0} (c : M A) (k : A → M B)
      → Steps c
      → ((a : A) → Steps (k a))
      → Steps (λ m'. and_then (c m') k)
  unfolding Steps
  step c k first rest events base =
      Returns-then _ _ (at m events base) (first events base) λ a events'. rest a events' base

  print-Steps :
      (fmt : List ℕ) (args : List Arg)
      → typed fmt args ≡ true
      → All IsWord args
      → Steps (print fmt args)
  unfolding Steps
  print-Steps fmt args fits words events base =
      let (s, e) = print-Says fmt args fits words (at m events base) in
      (tt, _, e, jumps-puts s events)

  pure-Steps : {A : Type 0} (a : A) → Steps (ok a)
  unfolding Steps
  pure-Steps a events base = (a, events, refl, refl)

  timer_init-Steps : Steps timer_init
  unfolding Steps timer_init
  timer_init-Steps events base = (tt, _, refl, refl)

  set_value-Steps : (gpio out : ℕ) → Steps (gpio_set_value ipq806x gpio out)
  unfolding Steps gpio_set_value
  set_value-Steps gpio out events base = (tt, _, refl, refl)

  config-Steps :
      (gpio func out pull drvstr oe : ℕ)
      → Steps (gpio_tlmm_config ipq806x gpio func out pull drvstr oe)
  unfolding Steps gpio_tlmm_config preset_output
  config-Steps gpio func out pull drvstr oe events base = elim (Bool-cases (func == 0)) [
    | inl e ↦ rw e (tt, _, refl, refl)
    | inr e ↦ rw e (tt, _, refl, refl)
  ]

  udelay-Steps : (usec : ℕ) → in_ticks usec ≤ 32 → Steps (udelay reads usec)
  unfolding Steps
  udelay-Steps usec h events base = udelay-Returns reads usec (at m events base) runs h enough

  mdelay-Steps : (msec : ℕ) → Steps (mdelay reads msec)
  unfolding mdelay in_ticks
  mdelay-Steps zero = pure-Steps tt
  mdelay-Steps (suc msec) = step _ _ (udelay-Steps 1000 (omega arith)) λ u. mdelay-Steps msec

  read-Steps : (phy reg : ℕ) → Steps (ipq_phy_read reads phy reg)
  unfolding Steps ipq_phy_read
  read-Steps phy reg events base = mdio_read-Returns reads phy reg (at m events base) runs enough

  write-Steps : (phy reg value : ℕ) → Steps (ipq_phy_write reads phy reg value)
  unfolding Steps ipq_phy_write
  write-Steps phy reg value events base =
      mdio_write-Returns reads phy reg value (at m events base) runs enough

  power_down-Steps : (a : ℕ) → Steps (power_down reads a)
  unfolding power_down
  power_down-Steps a =
      step _ _ (read-Steps a mii_bmcr)
        λ val. step _ _ (write-Steps a mii_bmcr (bit_or val bmcr_pdown)) λ r. pure-Steps tt

  not_ready-Steps : (mdio_num a : ℕ) → mdio_num < 2 ^ 32 → a < 2 ^ 32 → Steps (not_ready mdio_num a)
  unfolding not_ready typed
  not_ready-Steps mdio_num a h g =
      step _ _
        (print-Steps (codes "Phy %d:%d is NOT READY !!!\n") (word mdio_num ∷ word a ∷ []) refl
          (h, (g, tt)))
        λ u. set_value-Steps 48 1

  wait_phy-Steps :
      (mdio_num a left : ℕ)
      → mdio_num < 2 ^ 32
      → a < 2 ^ 32
      → Steps (wait_phy reads mdio_num a left)
  unfolding wait_phy in_ticks
  wait_phy-Steps mdio_num a zero h g = not_ready-Steps mdio_num a h g
  wait_phy-Steps mdio_num a (suc left) h g = step _ _ (read-Steps a mii_physid1) λ val.
      elim (Bool-cases (val == 0x4d)) [
        | inl e ↦ rw e (power_down-Steps a)
        | inr e ↦
            rw e
              (step _ _ (udelay-Steps 1000 (omega arith)) λ u. wait_phy-Steps mdio_num a left h g)
      ]

  each_phy-Steps :
      (mdio_num a left : ℕ)
      → mdio_num < 2 ^ 32
      → a + left < 2 ^ 32
      → Steps (each_phy reads mdio_num a left)
  unfolding each_phy
  each_phy-Steps mdio_num a zero h g = pure-Steps tt
  each_phy-Steps mdio_num a (suc left) h g =
      step _ _ (wait_phy-Steps mdio_num a 100 h (omega arith))
        λ u. each_phy-Steps mdio_num (a + 1) left h (omega arith)

  -- The power-down of one switch's transceivers leaves the base at that switch's registers.
  switch0 :
      (events : List Event) (base : ℕ)
      → Returns (at m events nss_gmac0_base) (do_phys_pwdown reads 0 (at m events base))
  unfolding do_phys_pwdown Steps
  switch0 events base = each_phy-Steps 0 0 5 (omega arith) (omega arith) events nss_gmac0_base

  switch1 :
      (events : List Event) (base : ℕ)
      → Returns (at m events nss_gmac1_base) (do_phys_pwdown reads 1 (at m events base))
  unfolding do_phys_pwdown Steps
  switch1 events base = each_phy-Steps 1 0 5 (omega arith) (omega arith) events nss_gmac1_base

  reset_switches-Steps : Steps (reset_switches reads)
  unfolding reset_switches typed
  reset_switches-Steps =
      step _ _ (print-Steps (codes "Doing preinits for Mikrotik RB3011\n") [] refl tt) λ u.
        step _ _ timer_init-Steps λ u. step _ _ (config-Steps _ _ _ _ _ _) λ u.
          step _ _ (config-Steps _ _ _ _ _ _) λ u. step _ _ (config-Steps _ _ _ _ _ _) λ u.
            step _ _ (config-Steps _ _ _ _ _ _) λ u. step _ _ (config-Steps _ _ _ _ _ _) λ u.
              step _ _ (config-Steps _ _ _ _ _ _) λ u. step _ _ (set_value-Steps _ _) λ u.
                step _ _ (set_value-Steps _ _) λ u. step _ _ (set_value-Steps _ _) λ u.
                  step _ _ (mdelay-Steps 20) λ u.
                    step _ _ (set_value-Steps _ _)
                      λ u. step _ _ (set_value-Steps _ _) λ u. mdelay-Steps 20

-- The RB3011 preinits return whatever the transceivers answer, if the timer's counter runs and the
-- delays are given more than 33 times the readings that it takes to move. They change nothing but
-- the trace, leave the MDIO base at the second switch, and do not call the kernel.
pub preinits-Returns :
    (reads : ℕ) (m : Machine)
    → (runs : Runs m.device) → 33 * runs.pace < reads
    → Returns (record m { mdio_reg_base = nss_gmac1_base }) (ipq806x_rb3011_preinits reads m)
unfolding ipq806x_rb3011_preinits Steps
preinits-Returns reads m runs enough =
    let (a, first, p, i) = reset_switches-Steps reads m runs enough m.trace m.mdio_reg_base in
    let (b, second, q, j) = switch0 reads m runs enough first m.mdio_reg_base in
    let (c, third, r, k) = switch1 reads m runs enough second nss_gmac0_base in
    (c, third, rw (p, q) r, k ∙ j ∙ i)
