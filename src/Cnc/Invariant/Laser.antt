-- ===== src/Cnc/Invariant/Laser.antt =====
-- The laser-enable line.
use kernel_module_glowforge.Base.{◌≡◌, ◌⊎◌, false, some, List, [], ◌∷◌, ◌==◌, if◌then◌else◌, arith}
use kernel_module_glowforge.Kernel.{Call, gpio_direction_output, gpio_set_value}
use kernel_module_glowforge.Pins
use kernel_module_glowforge.Io.{drive, input}
use kernel_module_glowforge.Ring.{Ring, Kfifo}
use kernel_module_glowforge.Cnc.State.{Cnc, Faults}
use kernel_module_glowforge.Cnc.Fault.{probe}
use kernel_module_glowforge.Cnc.Event.{Event, ramp_tick, step, steps, steps_inv}
use kernel_module_glowforge.Cnc.Invariant.Flags.{FlagsFit, step-FlagsFit, probe-FlagsFit}

-- No call drives the laser-enable line high.
abbrev pub NeverHigh : List Call → Type 0
NeverHigh [] = Unit {0}
NeverHigh (gpio_direction_output p v ∷ older) =
    (if p == Pins.laser_on then v ≡ 0 else Unit) × NeverHigh older
NeverHigh (gpio_set_value p v ∷ older) =
    (if p == Pins.laser_on then v ≡ 0 else Unit) × NeverHigh older
NeverHigh (_ ∷ older) = NeverHigh older

pub record LaserSafe (c : Cnc) : Type 0 where
  pub parked : (c.decelerating ≡ false) ⊎ (drive Pins.laser_on c.calls ≡ some input)
  pub never_high : NeverHigh c.calls

probe-LaserSafe : (live : Faults) (ring : Ring) → LaserSafe (probe live ring)
unfolding probe
probe-LaserSafe live ring = ground arith

module _ (k : Kfifo) where
  pub step-LaserSafe : (e : Event) (c : Cnc) → FlagsFit c → LaserSafe c → LaserSafe (step k e c)
  unfolding step
  step-LaserSafe ramp_tick c f h = ground arith
  step-LaserSafe _ c f h = ground arith

  -- Whatever happens after the probe, in any order, the driver never drives the laser-enable line
  -- high itself, and while it decelerates the newest direction that it gave the line is input.
  pub probe-steps-LaserSafe :
      (live : Faults) (ring : Ring) (es : List Event) → LaserSafe (steps k es (probe live ring))
  probe-steps-LaserSafe live ring es =
      (steps_inv k (λ c. FlagsFit c × LaserSafe c)
        (λ e c h. (step-FlagsFit k e c h.0, step-LaserSafe e c h.0 h.1)) es _
        (probe-FlagsFit live ring, probe-LaserSafe live ring)).1
