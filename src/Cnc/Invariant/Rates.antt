-- ===== src/Cnc/Invariant/Rates.antt =====
-- The frequencies that the step timer is given.
use kernel_module_glowforge.Base.{◌≤◌, List, [], ◌∷◌, arith}
use kernel_module_glowforge.Kernel.{Call, epit_start_hz, epit_set_hz}
use kernel_module_glowforge.Ring.{Ring, Kfifo}
use kernel_module_glowforge.Cnc.State.{
  Cnc, Faults, ramp_min_step_frequency, step_frequency_min, step_frequency_max,
}
use kernel_module_glowforge.Cnc.Fault.{probe}
use kernel_module_glowforge.Cnc.Event.{Event, ramp_tick, step, steps, steps_inv}

-- Every frequency given to the step timer lies between the ramp's minimum and the maximum.
abbrev pub InRange : List Call → Type 0
InRange [] = Unit {0}
InRange (epit_start_hz f ∷ older) =
    (ramp_min_step_frequency ≤ f) × (f ≤ step_frequency_max) × InRange older
InRange (epit_set_hz f ∷ older) =
    (ramp_min_step_frequency ≤ f) × (f ≤ step_frequency_max) × InRange older
InRange (_ ∷ older) = InRange older

pub record RatesFit (c : Cnc) : Type 0 where
  pub freq_min : step_frequency_min ≤ c.step_freq
  pub freq_max : c.step_freq ≤ step_frequency_max
  pub ramp_min : ramp_min_step_frequency ≤ c.ramp_step_freq
  pub ramp_max : c.ramp_step_freq ≤ c.step_freq
  pub delta_min : 100 ≤ c.ramp_step_freq_delta
  pub delta_max : c.ramp_step_freq_delta ≤ 5000
  pub given : InRange c.calls

pub probe-RatesFit : (live : Faults) (ring : Ring) → RatesFit (probe live ring)
unfolding probe
probe-RatesFit live ring = ground arith

module _ (k : Kfifo) where
  pub step-RatesFit : (e : Event) (c : Cnc) → RatesFit c → RatesFit (step k e c)
  unfolding step
  step-RatesFit ramp_tick c h = ground arith
  step-RatesFit _ c h = ground arith

  -- Whatever happens after the probe, in any order, the step frequency stays between its limits, the
  -- ramp's frequency between the ramp's minimum and the step frequency, and the ramp's change per
  -- update between 100 and 5000 Hz; every frequency that the step timer was ever given lies between
  -- the ramp's minimum and the greatest step frequency.
  pub probe-steps-RatesFit :
      (live : Faults) (ring : Ring) (es : List Event) → RatesFit (steps k es (probe live ring))
  probe-steps-RatesFit live ring es =
      steps_inv k RatesFit step-RatesFit es _ (probe-RatesFit live ring)
