-- ===== src/Cnc/Motion.antt =====
-- Stopping, and the controlled acceleration and deceleration (src/cnc.c). `softirq` is what
-- `in_softirq()` answers. A handler that runs under `status_lock` is one step.
use kernel_module_glowforge.Base.{
  ℕ, Bool, true, false, not, List, ◌∷◌, ltb, leb, ◌==◌, if◌then◌else◌, add32, sub32,
}
use kernel_module_glowforge.Kernel.{
  Call, gpio_direction_input, epit_stop, epit_set_hz, hrtimer_start, hrtimer_cancel,
  sdma_event_disable, notify_state_changed, ramp_timer, charge_pump_timer,
}
use kernel_module_glowforge.Pins
use kernel_module_glowforge.Io.{change_pins, stop_pin_changes, shutdown_pin_changes}
use kernel_module_glowforge.Cnc.State.{
  Cnc, CncState, idle, disabled, underrun, is_running, ramp_min_step_frequency,
}

abbrev pub call : Call → Cnc → Cnc
call k c = record c { calls = k ∷ c.calls }

-- `_cnc_ramp_stop`
unfoldable pub ramp_stop : Bool → Cnc → Cnc
ramp_stop softirq c =
    let d = if softirq then c else call (hrtimer_cancel ramp_timer) c in
    record d { decelerating = false; accelerating = false }

-- The safe state of the output lines: the power stays on unless the driver is being disabled.
abbrev pub safe_outputs : CncState → List Call → List Call
safe_outputs disabled calls = change_pins Pins.num_gpio_pins shutdown_pin_changes calls
safe_outputs _ calls = change_pins Pins.num_gpio_pins stop_pin_changes calls

-- `_driver_stop`
unfoldable pub driver_stop : Bool → CncState → Cnc → Cnc
unfolding ramp_stop
driver_stop softirq next_state c =
    let c1 = call epit_stop c in
    let c2 = if softirq then c1 else call (hrtimer_cancel charge_pump_timer) c1 in
    let c3 = ramp_stop softirq (call sdma_event_disable c2) in
    record c3 {
      waypoint_armed = false;
      decel_on_interrupt = false;
      running_backward = false;
      state = next_state;
      stop_generation = add32 c3.stop_generation 1;
      calls = notify_state_changed ∷ safe_outputs next_state c3.calls;
    }

-- `_cnc_decel_start`
unfoldable pub decel_start : Cnc → Cnc
decel_start c = if c.decelerating then c else record c {
  ramp_step_freq = if c.accelerating then c.ramp_step_freq else c.step_freq;
  accelerating = false;
  decelerating = true;
  calls = hrtimer_start ramp_timer ∷ gpio_direction_input Pins.laser_on ∷ c.calls;
}

-- `_cnc_accel_start`
unfoldable pub accel_start : Cnc → Cnc
accel_start c = if c.accelerating then c else record c {
  ramp_step_freq = if c.decelerating then c.ramp_step_freq else ramp_min_step_frequency;
  accelerating = true;
  decelerating = false;
  calls = hrtimer_start ramp_timer ∷ c.calls;
}

-- The frequency after one step of a deceleration: a decrement that saturates at the minimum.
unfoldable pub slower : ℕ → ℕ → ℕ
slower freq delta =
    if ltb (add32 ramp_min_step_frequency delta) freq
    then sub32 freq delta
    else ramp_min_step_frequency

-- The two branches of `ramp_update_tasklet_fn`: one update of a deceleration, and of an
-- acceleration. The answer is whether the timer restarts.
unfoldable pub decel_update : Cnc → Bool × Cnc
unfolding driver_stop slower
decel_update c =
    let f = slower c.ramp_step_freq c.ramp_step_freq_delta in
    if leb c.ramp_step_freq ramp_min_step_frequency
    then (false, driver_stop true idle c)
    else (true, call (epit_set_hz f) (record c { ramp_step_freq = f }))

unfoldable pub accel_update : Cnc → Bool × Cnc
accel_update c =
    let f = add32 c.ramp_step_freq c.ramp_step_freq_delta in
    if leb c.step_freq f
    then (
      false,
      call (epit_set_hz c.step_freq)
          (record c { ramp_step_freq = c.step_freq; accelerating = false; decelerating = false }),
    )
    else (true, call (epit_set_hz f) (record c { ramp_step_freq = f }))

-- `ramp_update_tasklet_fn`, on the soft ramp timer.
unfoldable pub ramp_update : Cnc → Bool × Cnc
unfolding decel_update accel_update
ramp_update c =
    if c.decelerating then decel_update c else if c.accelerating then accel_update c else (false, c)

-- `cnc_sdma_interrupt`, in tasklet context: a set mailbox is the end of the data.
unfoldable pub sdma_interrupt : Cnc → Cnc
unfolding driver_stop decel_start
sdma_interrupt c =
    if not (c.sdma_mailbox == 0)
    then if is_running c.state
      then if c.streaming
        then driver_stop true underrun (record c { underrun_count = add32 c.underrun_count 1 })
        else driver_stop true idle c
      else c
    else if c.waypoint_armed
    then if c.decel_on_interrupt
      then decel_start (record c { waypoint_armed = false; decel_on_interrupt = false })
      else record c { waypoint_armed = false }
    else c
