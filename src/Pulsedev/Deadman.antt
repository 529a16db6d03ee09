-- ===== src/Pulsedev/Deadman.antt =====
-- The dead man's switch.
use kernel_module_glowforge.Base.{
  ◌<◌, ◌≡◌, ◌≢◌, true, false, ◌&&◌, some, List, ◌⊎◌, inl, inr, refl, arith,
}
use kernel_module_glowforge.Kernel.{ok, dms_notify}
use kernel_module_glowforge.Pins
use kernel_module_glowforge.Io.{drive, input, level}
use kernel_module_glowforge.Ring.{Kfifo}
use kernel_module_glowforge.Cnc.State.{Cnc, running, is_running}
use kernel_module_glowforge.Cnc.Motion.{call}
use kernel_module_glowforge.Cnc.Control.{halt}
use kernel_module_glowforge.Cnc.Laser.{set_laser_latch}
use kernel_module_glowforge.Cnc.Event.{Event, steps}
use kernel_module_glowforge.Cnc.Commits.{has_commit, times_told, steps-stopped, steps-times_told}
use kernel_module_glowforge.Pulsedev.{Pulsedev, deadman_stop, pulsedev_close}

-- What the end of a close does, in whatever state it finds the driver.
pub latched_lem :
    (c : Cnc)
    → let d = (set_laser_latch 1 c).1 in
      (drive Pins.laser_on d.calls ≡ some input)
      × (level Pins.laser_latch_reset d.calls ≡ some 1)
      × (d.state ≡ c.state)
      × (times_told d.calls ≡ times_told c.calls)
unfolding set_laser_latch
latched_lem c = ground arith

pub halted_lem :
    (c : Cnc)
    → let d = call dms_notify (halt false c).1 in
      (d.state ≢ running) × (times_told c.calls < times_told d.calls)
unfolding halt
halted_lem c = ground arith

-- The driver after the halt of a close and what other contexts do next.
pub halted_and_left :
    (k : Kfifo) (ds : List Event) (c : Cnc)
    → let d = (set_laser_latch 1 (steps k ds (call dms_notify (halt false c).1))).1 in
      ((d.state ≢ running) ⊎ (has_commit ds ≡ true)) × (times_told c.calls < times_told d.calls)
halted_and_left k ds c =
    let h = call dms_notify (halt false c).1 in
    let halted = halted_lem c in
    let latched = latched_lem (steps k ds h) in
    let told = steps-times_told k ds h in
    (
      (elim (steps-stopped k ds h halted.0) [ inl s ↦ inl (rw (latched.2) s) | inr y ↦ inr y ]),
      omega (arith, halted.1, latched.3),
    )

-- A holder that closes the device leaves it free, with the laser latch locked and the laser-enable
-- line high impedance, whatever other contexts do in between. Where the dead man's switch is armed
-- and the driver ran as the state was read, the listeners of the switch were told once more, and the
-- driver does not run afterwards, unless another context commits a start after the halt, while the
-- listeners are called or before the latch is locked.
pub close_lem :
    (k : Kfifo) (between during : List Event) (p : Pulsedev)
    → let (r, q) = pulsedev_close (steps k between) (steps k during) (some p) in
      (r ≡ ok)
      × (d : Pulsedev) × (q ≡ some d)
      × (d.pulsedev_in_use ≡ false)
      × (drive Pins.laser_on d.cnc.calls ≡ some input)
      × (level Pins.laser_latch_reset d.cnc.calls ≡ some 1)
      × (p.deadman_switch_active ≡ true
          → p.cnc.state ≡ running
          → ((d.cnc.state ≢ running) ⊎ (has_commit during ≡ true))
            × (times_told p.cnc.calls < times_told d.cnc.calls))
unfolding pulsedev_close
close_lem k between during p =
    let c = steps k between p.cnc in
    let left = steps k during (deadman_stop p.deadman_switch_active p.cnc.state c) in
    let latched = latched_lem left in
    (
      refl,
      _,
      refl,
      refl,
      latched.0,
      latched.1,
      λ armed runs.
          let before = steps-times_told k between p.cnc in
          let after = halted_and_left k during c in
          let trips : (p.deadman_switch_active && is_running p.cnc.state) ≡ true = ground arith in
          rw trips (after.0, omega (arith, before, after.1)),
    )
