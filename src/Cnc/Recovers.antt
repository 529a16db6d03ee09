-- ===== src/Cnc/Recovers.antt =====
-- The driver can always be brought back to idle, and started from there.
use kernel_module_glowforge.Base.{◌≡◌, false, List, [], ◌∷◌, arith}
use kernel_module_glowforge.Ring.{Ring, Kfifo}
use kernel_module_glowforge.Cnc.State.{Cnc, Faults, no_faults, any_fault, idle, running}
use kernel_module_glowforge.Cnc.Fault.{probe}
use kernel_module_glowforge.Cnc.Run.{StartEnv, RunOptions}
use kernel_module_glowforge.Cnc.Event.{
  Event, halts, stops, enable_checks, enable_commits, commits, step, steps,
}
use kernel_module_glowforge.Cnc.Invariant.Faults.{FaultStops, probe-steps-FaultStops}

-- A halt, a stop, and an enable while no fault line reads asserted.
abbrev pub brings_back : List Event
brings_back = halts false ∷ stops ∷ enable_checks no_faults ∷ enable_commits ∷ []

module _ (k : Kfifo) where
  back_from :
      (c : Cnc)
      → FaultStops c
      → let d = steps k brings_back c in (d.state ≡ idle) × (any_fault d.triggered_faults ≡ false)
  unfolding steps step
  back_from c h = ground (arith, h.stopped)

  starts_from :
      (d : Cnc) (env : StartEnv) (opts : RunOptions)
      → d.state ≡ idle
      → any_fault d.triggered_faults ≡ false
      → (step k (commits env opts d.stop_generation) d).state ≡ running
  unfolding step
  starts_from d env opts s f = ground arith

  -- Whatever has happened since the probe, in any order, a halt, a stop and an enable that finds no
  -- fault line asserted bring the driver to idle with no fault recorded, and the commit of a start
  -- that reads its stop generation then sets it running.
  pub can_always_start :
      (live : Faults) (ring : Ring) (es : List Event) (env : StartEnv) (opts : RunOptions)
      → let d = steps k brings_back (steps k es (probe live ring)) in
        (d.state ≡ idle)
        × (any_fault d.triggered_faults ≡ false)
        × ((step k (commits env opts d.stop_generation) d).state ≡ running)
  can_always_start live ring es env opts =
      let h = back_from _ (probe-steps-FaultStops k live ring es) in
      (h.0, h.1, starts_from _ env opts h.0 h.1)
