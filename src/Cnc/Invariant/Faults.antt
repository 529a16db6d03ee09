-- ===== src/Cnc/Invariant/Faults.antt =====
-- Recorded faults and the fault state.
use kernel_module_glowforge.Base.{◌≡◌, ◌⊎◌, false, List, arith}
use kernel_module_glowforge.Ring.{Ring, Kfifo}
use kernel_module_glowforge.Cnc.State.{Cnc, Faults, any_fault, fault}
use kernel_module_glowforge.Cnc.Fault.{probe}
use kernel_module_glowforge.Cnc.Event.{Event, ramp_tick, step, steps, steps_inv}
use kernel_module_glowforge.Cnc.Invariant.Flags.{FlagsFit, step-FlagsFit, probe-FlagsFit}

-- A driver with a recorded fault is in the fault state.
pub record FaultStops (c : Cnc) : Type 0 where
  pub stopped : (any_fault c.triggered_faults ≡ false) ⊎ (c.state ≡ fault)

probe-FaultStops : (live : Faults) (ring : Ring) → FaultStops (probe live ring)
unfolding probe
probe-FaultStops live ring = ground arith

module _ (k : Kfifo) where
  pub step-FaultStops : (e : Event) (c : Cnc) → FlagsFit c → FaultStops c → FaultStops (step k e c)
  unfolding step
  step-FaultStops ramp_tick c f h = ground (arith, f.quiet, h.stopped)
  step-FaultStops _ c f h = ground (arith, f.quiet, h.stopped)

  -- Whatever happens after the probe, in any order, a driver with a recorded fault is in the fault
  -- state, so that it does not run.
  pub probe-steps-FaultStops :
      (live : Faults) (ring : Ring) (es : List Event) → FaultStops (steps k es (probe live ring))
  probe-steps-FaultStops live ring es =
      (steps_inv k (λ c. FlagsFit c × FaultStops c)
        (λ e c h. (step-FlagsFit k e c h.0, step-FaultStops e c h.0 h.1)) es _
        (probe-FlagsFit live ring, probe-FaultStops live ring)).1
