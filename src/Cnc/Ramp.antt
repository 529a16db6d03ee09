-- ===== src/Cnc/Ramp.antt =====
-- A controlled deceleration ends.
use kernel_module_glowforge.Base.{
  ℕ, zero, suc, ◌+◌, ◌*◌, ◌≤◌, ◌≡◌, refl, true, false, ◌⊎◌, inl, inr, some, arith,
}
use kernel_module_glowforge.Kernel.{ok}
use kernel_module_glowforge.Pins
use kernel_module_glowforge.Io.{drive, input}
use kernel_module_glowforge.Cnc.State.{
  Cnc, idle, running, ramp_min_step_frequency, step_frequency_max,
}
use kernel_module_glowforge.Cnc.Motion.{ramp_update}
use kernel_module_glowforge.Cnc.Control.{stop}
use kernel_module_glowforge.Cnc.Invariant.Rates.{RatesFit}

-- The driver after `n` updates of the ramp.
unfoldable pub updates : ℕ → Cnc → Cnc
updates zero c = c
updates (suc n) c = updates n (ramp_update c).1

-- At rest: idle, with no ramp on and the laser-enable line high impedance.
pub record AtRest (c : Cnc) : Type 0 where
  pub idle_state : c.state ≡ idle
  pub no_decel : c.decelerating ≡ false
  pub no_accel : c.accelerating ≡ false
  pub parked : drive Pins.laser_on c.calls ≡ some input

rest_stays : (n : ℕ) (c : Cnc) → AtRest c → AtRest (updates n c)
unfolding updates ramp_update
rest_stays zero c h = h
rest_stays (suc n) c h = rest_stays n (ramp_update c).1 (ground arith)

-- One update of a deceleration stops the driver, or slows it down by `delta` or to the minimum.
update_lem :
    (c : Cnc) (n delta : ℕ)
    → c.decelerating ≡ true
    → c.ramp_step_freq_delta ≡ delta
    → c.ramp_step_freq ≤ step_frequency_max
    → delta ≤ 5000
    → c.ramp_step_freq ≤ ramp_min_step_frequency + suc n * delta
    → let d = (ramp_update c).1 in
      AtRest d
      ⊎ ((d.decelerating ≡ true)
          × (d.ramp_step_freq_delta ≡ delta)
          × (d.ramp_step_freq ≤ step_frequency_max)
          × (d.ramp_step_freq ≤ ramp_min_step_frequency + n * delta))
unfolding ramp_update
update_lem c n delta h e m b f = ground arith

last_update :
    (c : Cnc)
    → c.decelerating ≡ true
    → c.ramp_step_freq ≤ ramp_min_step_frequency
    → AtRest (ramp_update c).1
unfolding ramp_update
last_update c h f = ground arith

-- The remaining updates, by the distance to the minimum.
updates_rest :
    (n : ℕ) (c : Cnc) (delta : ℕ)
    → c.decelerating ≡ true
    → c.ramp_step_freq_delta ≡ delta
    → c.ramp_step_freq ≤ step_frequency_max
    → delta ≤ 5000
    → c.ramp_step_freq ≤ ramp_min_step_frequency + n * delta
    → AtRest (updates (suc n) c)
unfolding updates
updates_rest zero c delta h e m b f = last_update c h (omega arith)
updates_rest (suc n) c delta h e m b f = elim (update_lem c n delta h e m b f) [
  | inl r ↦ rest_stays (suc n) _ r
  | inr s ↦ updates_rest n _ delta s.0 s.1 s.2 b s.3
]

-- A controlled deceleration that the driver is in ends: once the updates of the ramp have made up the
-- distance from the ramp's frequency to its minimum, and one more has come, the driver is idle, with
-- no ramp on and the laser-enable line high impedance.
pub decel_ends :
    (c : Cnc) (n : ℕ)
    → RatesFit c
    → c.decelerating ≡ true
    → c.ramp_step_freq ≤ ramp_min_step_frequency + n * c.ramp_step_freq_delta
    → AtRest (updates (suc n) c)
decel_ends c n r h f = updates_rest n c c.ramp_step_freq_delta h refl (omega arith) r.delta_max f

stop_decelerates :
    (c : Cnc)
    → RatesFit c
    → c.state ≡ running
    → ((stop c).0 ≡ ok) × ((stop c).1.decelerating ≡ true) × RatesFit (stop c).1
unfolding stop
stop_decelerates c r h = ground arith

-- A stop of a running driver succeeds and brings it to rest: 1992 updates of the ramp, 20 seconds, are always enough, whatever the frequency and the ramp rate.
pub stop_comes_to_rest :
    (c : Cnc)
    → RatesFit c
    → c.state ≡ running
    → ((stop c).0 ≡ ok) × AtRest (updates 1992 (stop c).1)
stop_comes_to_rest c r h =
    let s = stop_decelerates c r h in (s.0, decel_ends (stop c).1 1991 s.2 s.1 (enough _ s.2))
  where
    enough :
        (d : Cnc)
        → RatesFit d
        → d.ramp_step_freq ≤ ramp_min_step_frequency + 1991 * d.ramp_step_freq_delta
    enough d q = omega arith
