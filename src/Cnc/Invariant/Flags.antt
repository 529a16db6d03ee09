-- ===== src/Cnc/Invariant/Flags.antt =====
-- The flags of a run.
use kernel_module_glowforge.Base.{◌≡◌, ◌⊎◌, true, false, not, ◌&&◌, List, arith}
use kernel_module_glowforge.Ring.{Ring, Kfifo}
use kernel_module_glowforge.Cnc.State.{Cnc, Faults, is_running}
use kernel_module_glowforge.Cnc.Fault.{probe}
use kernel_module_glowforge.Cnc.Event.{Event, ramp_tick, step, steps, steps_inv}

-- A driver that does not run has no flag of a run set; it ramps one way at most, and a deceleration
-- waits for a waypoint only while one is armed.
pub record FlagsFit (c : Cnc) : Type 0 where
  pub quiet :
      (is_running c.state ≡ true)
      ⊎ ((c.decelerating ≡ false)
          × (c.accelerating ≡ false)
          × (c.decel_on_interrupt ≡ false)
          × (c.waypoint_armed ≡ false)
          × (c.running_backward ≡ false))
  pub one_ramp : (c.decelerating && c.accelerating) ≡ false
  pub armed : (c.decel_on_interrupt && not c.waypoint_armed) ≡ false

pub probe-FlagsFit : (live : Faults) (ring : Ring) → FlagsFit (probe live ring)
unfolding probe
probe-FlagsFit live ring = ground arith

module _ (k : Kfifo) where
  pub step-FlagsFit : (e : Event) (c : Cnc) → FlagsFit c → FlagsFit (step k e c)
  unfolding step
  step-FlagsFit ramp_tick c h = ground arith
  step-FlagsFit _ c h = ground arith

  -- Whatever happens after the probe, in any order, the flags of a run fit the state: they are all
  -- clear unless the driver runs, no two ramps are on, and a deceleration waits only on an armed
  -- waypoint.
  pub probe-steps-FlagsFit :
      (live : Faults) (ring : Ring) (es : List Event) → FlagsFit (steps k es (probe live ring))
  probe-steps-FlagsFit live ring es =
      steps_inv k FlagsFit step-FlagsFit es _ (probe-FlagsFit live ring)
