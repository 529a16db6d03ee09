-- ===== src/Cnc/Probe/Unwinding.antt =====
-- What a probe leaves held, on every path, and what a removal gives back.
use kernel_module_glowforge.Base.{
  ◌≡◌, ◌⊎◌, Bool, true, false, not, ◌&&◌, ◌||◌, ◌==◌, if◌then◌else◌, List, [], ◌∷◌, arith, ℕ,
}
use kernel_module_glowforge.Kernel.{ok, is_ok}
use kernel_module_glowforge.Setup.{holding, is_proper, held_within}
use kernel_module_glowforge.Cnc.Probe

abbrev pub behind_pulsedev : List ℕ
behind_pulsedev =
    Probe.mailbox
    ∷ Probe.pulse_ring
    ∷ Probe.gpio_pins
    ∷ Probe.laser_pwm
    ∷ Probe.sdma_channel
    ∷ Probe.attr_group
    ∷ Probe.state_attr_node
    ∷ Probe.sysfs_link
    ∷ Probe.interlock_handler
    ∷ Probe.stepper_fault_irq 0
    ∷ Probe.stepper_fault_irq 1
    ∷ Probe.stepper_fault_irq 2
    ∷ []

-- The resources of a driver that is up, newest first.
abbrev pub all_resources : List ℕ
all_resources =
    Probe.laser_sample_timer
    ∷ Probe.panic_notifier
    ∷ Probe.pulsedev
    ∷ Probe.interlock_handler
    ∷ Probe.sysfs_link
    ∷ Probe.state_attr_node
    ∷ Probe.attr_group
    ∷ Probe.stepper_fault_irq 2
    ∷ Probe.stepper_fault_irq 1
    ∷ Probe.stepper_fault_irq 0
    ∷ Probe.sdma_channel
    ∷ Probe.laser_pwm
    ∷ Probe.gpio_pins
    ∷ Probe.pulse_ring
    ∷ Probe.mailbox
    ∷ []

-- The probe comes to the request of the fault interrupts, after looking them up.
abbrev pub requests_irqs : Probe.Answers → Bool
requests_irqs a =
    is_ok (Probe.probe_hardware a).0 && (a.regulator_status == 0) && (a.irq_lookups == 0)

-- The interrupts that a refused request leaves held: those requested before it.
abbrev pub left_held : Probe.Answers → List ℕ
left_held a =
    if not (requests_irqs a) || not (a.irq_status_x == 0)
    then []
    else if not (a.irq_status_y1 == 0)
    then Probe.stepper_fault_irq 0 ∷ []
    else if not (a.irq_status_y2 == 0)
    then Probe.stepper_fault_irq 1 ∷ Probe.stepper_fault_irq 0 ∷ []
    else []

-- On every path a probe acquires and releases each resource properly, and the pulse device exists
-- only while everything behind it is held. One that fails holds nothing, except that where the probe
-- comes to requesting the fault interrupts and one is refused, those requested before it stay held. One that succeeds holds everything,
-- and the removal that follows gives all of it back but the three fault interrupts. The kfifo is
-- taken to accept the ring.
pub cnc_probe_lem :
    (a : Probe.Answers)
    → a.kfifo_status ≡ 0
    → let (r, cs) = Probe.cnc_probe a in
      (is_proper cs ≡ true)
      × (held_within Probe.pulsedev behind_pulsedev cs ≡ true)
      × (((is_ok r ≡ false) × (holding cs ≡ left_held a))
          ⊎ ((r ≡ ok)
              × (holding cs ≡ all_resources)
              × (is_proper (Probe.cnc_remove cs) ≡ true)
              × (held_within Probe.pulsedev behind_pulsedev (Probe.cnc_remove cs) ≡ true)
              × (holding (Probe.cnc_remove cs)
                  ≡ Probe.stepper_fault_irq 2
                    ∷ Probe.stepper_fault_irq 1
                    ∷ Probe.stepper_fault_irq 0
                    ∷ [])))
unfolding Probe.cnc_probe Probe.cnc_remove Probe.probe_hardware
cnc_probe_lem a k = ground arith
