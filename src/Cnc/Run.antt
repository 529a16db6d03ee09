-- ===== src/Cnc/Run.antt =====
-- Starting a run: run, backtrack and resume (src/cnc.c). A start checks the state, prepares the
-- engine outside the lock, where it may sleep, and commits under the lock. `StartEnv` holds what the
-- kernel answers on the way; `between` and `during` are what other contexts do to the driver between
-- the check and the preparation, and while the preparation sleeps.
use kernel_module_glowforge.Base.{
  ℕ, ◌%◌, ◌^◌, Bool, true, false, not, ◌&&◌, ◌||◌, ◌∷◌, ltb, ◌==◌, if◌then◌else◌,
}
use kernel_module_glowforge.Kernel.{
  Ret, ok, fail, is_ok, of_status, Errno, gpio_direction_output, gpio_set_value, epit_start_hz,
  hrtimer_start, sdma_event_enable, sdma_set_channel_priority, sdma_set_run_regs,
  sdma_set_laser_inhibit, sdma_write_script, pwm_duty, notify_state_changed, charge_pump_timer,
}
use kernel_module_glowforge.Pins
use kernel_module_glowforge.Ring.{Kfifo, Fetch}
use kernel_module_glowforge.Cnc.State.{
  Cnc, CncState, idle, running, disabled, any_fault, ramp_min_step_frequency,
}
use kernel_module_glowforge.Cnc.Motion.{call, accel_start}
use kernel_module_glowforge.Cnc.Control.{Rail, power_on_unchecked, power_off}
use kernel_module_glowforge.Buffer.{is_empty, max_backtrack_length, backtrack_dead_stop}

-- `struct cnc_run_options`
pub record RunOptions : Type 0 where
  pub num_steps : ℕ  -- 28 bits
  pub backward : Bool
  pub accelerate : Bool
  pub decelerate : Bool
  pub preserve_power : Bool

pub record StartEnv : Type 0 where
  pub empty_fetch : Fetch
  pub script_fetch_status : ℕ
  pub script_intact : Bool
  pub script_write_status : ℕ
  pub backtrack_fetch : Fetch
  pub regs_status : ℕ
  pub inhibit_status : ℕ
  pub was_powered : Bool
  pub rail : Rail
  pub rail_off : Rail
  pub latch_level : ℕ
  pub laser_bits : ℕ  -- `laser_inhibit_bits`: the laser pins as port bits

abbrev pub may_start : CncState → Bool
may_start idle = true
may_start disabled = true
may_start _ = false

-- `verify_sdma_script`
unfoldable pub verify_sdma_script : StartEnv → Cnc → Ret × Cnc
verify_sdma_script env c =
    if not (env.script_fetch_status == 0)
    then (of_status env.script_fetch_status, c)
    else if env.script_intact
    then (ok, c)
    else (of_status env.script_write_status, call sdma_write_script c)

abbrev pub laser_pwm_idle_duty : ℕ
laser_pwm_idle_duty = 65535

-- `toggle_charge_pump`
unfoldable pub toggle_charge_pump : Cnc → Cnc
toggle_charge_pump c = record c {
  calls =
      gpio_set_value Pins.charge_pump 0
      ∷ gpio_set_value Pins.charge_pump 1
      ∷ gpio_set_value Pins.charge_pump 0
      ∷ c.calls;
}

-- `beam_detect_latch_reset`
unfoldable pub beam_detect_latch_reset : Cnc → Cnc
beam_detect_latch_reset c = record c {
  calls = gpio_set_value Pins.beam_latch_reset 0 ∷ gpio_set_value Pins.beam_latch_reset 1 ∷ c.calls;
}

-- The part of the commit that changes the state and starts the engine.
unfoldable pub start_engine : StartEnv → RunOptions → Cnc → Cnc
unfolding toggle_charge_pump beam_detect_latch_reset accel_start
start_engine env opts c =
    let armed = ltb 0 opts.num_steps in
    let c1 = record c {
      state = running;
      waypoint_armed = armed;
      decel_on_interrupt = opts.decelerate && armed;
      running_backward = opts.backward;
    } in
    let c2 = if env.latch_level == 0 then call (gpio_direction_output Pins.laser_on 0) c1 else c1 in
    let c3 = toggle_charge_pump (beam_detect_latch_reset (call notify_state_changed c2)) in
    let c4 = call sdma_event_enable (call (hrtimer_start charge_pump_timer) c3) in
    let c5 =
      if opts.accelerate
      then accel_start (call (epit_start_hz ramp_min_step_frequency) c4)
      else call (epit_start_hz c4.step_freq) c4 in
    call (sdma_set_channel_priority 6) c5

-- The locked section that commits a start; `stop_gen` is the generation read at the check.
unfoldable pub run_commit : StartEnv → RunOptions → ℕ → Cnc → Ret × Cnc
unfolding start_engine
run_commit env opts stop_gen c =
    if any_fault c.triggered_faults
    then (fail Errno.eperm, c)
    else if not (c.stop_generation == stop_gen) || not (may_start c.state)
    then (fail Errno.eperm, c)
    else (ok, start_engine env opts c)

module _ (k : Kfifo) where
  -- What is done under `pulsebuf_lock` before the power comes on: the length check of a backward run
  -- and the registers of the engine.
  unfoldable pub publish_run : StartEnv → RunOptions → Cnc → Ret × Cnc
  unfolding max_backtrack_length
  publish_run env opts c =
      let (longest, d) =
        if opts.backward then max_backtrack_length k env.backtrack_fetch c else (0, c) in
      let dead_stop = if opts.backward then backtrack_dead_stop k d else d.ring.fifo.in_ix in
      let direction = if opts.backward then 0xFFFFFFFF else 1 in
      let e = call (sdma_set_run_regs dead_stop direction opts.num_steps) d in
      let inhibit = if opts.accelerate && not opts.backward then env.laser_bits else 0 in
      let f = call (sdma_set_laser_inhibit inhibit) e in
      if opts.backward && ltb longest opts.num_steps
      then (fail Errno.eperm, d)
      else if not (env.regs_status == 0)
      then (of_status env.regs_status, e)
      else if not (env.inhibit_status == 0)
      then (of_status env.inhibit_status, f)
      else (ok, record f { sdma_mailbox = 0 })

  -- The power and the laser duty, before the lock is taken.
  unfoldable pub power_run : StartEnv → RunOptions → Cnc → Cnc
  unfolding power_on_unchecked
  power_run env opts c =
      let d = power_on_unchecked env.rail c in
      if opts.preserve_power then d else call (pwm_duty laser_pwm_idle_duty) d

  -- The start from the data check on. `stop_gen` was read when it began.
  unfoldable pub start_run : StartEnv → RunOptions → ℕ → (Cnc → Cnc) → Cnc → Ret × Cnc
  start_run env opts stop_gen during c =
      let (empty, c1) = is_empty k env.empty_fetch c in
      let (verified, c2) = verify_sdma_script env c1 in
      let (published, c3) = publish_run env opts c2 in
      let (committed, c4) = run_commit env opts stop_gen (during (power_run env opts c3)) in
      if empty
      then (fail Errno.enodata, c1)
      else if not (is_ok verified)
      then (verified, c2)
      else if not (is_ok published)
      then (published, c3)
      else if is_ok committed || env.was_powered
      then (committed, c4)
      else (committed, power_off env.rail_off c4)

  -- `cnc_run_with_options`
  unfoldable pub run_with_options :
      StartEnv → RunOptions → (Cnc → Cnc) → (Cnc → Cnc) → Cnc → Ret × Cnc
  run_with_options env opts between during c =
      let d = between c in
      if may_start c.state
      then start_run env opts d.stop_generation during d
      else (fail Errno.eperm, c)

  -- `cnc_run`
  unfoldable pub run : StartEnv → (Cnc → Cnc) → (Cnc → Cnc) → Cnc → Ret × Cnc
  run env = run_with_options env (record {
    num_steps = 0;
    backward = false;
    accelerate = false;
    decelerate = false;
    preserve_power = false;
  })

  -- `cnc_backtrack`: the waypoint counter has 28 bits.
  unfoldable pub backtrack : StartEnv → ℕ → (Cnc → Cnc) → (Cnc → Cnc) → Cnc → Ret × Cnc
  backtrack env num_steps between during c =
      if num_steps == 0
      then (fail Errno.einval, c)
      else run_with_options env
          (record {
            num_steps = num_steps % 2 ^ 28;
            backward = true;
            accelerate = true;
            decelerate = true;
            preserve_power = true;
          })
          between during c

  -- `cnc_resume`
  unfoldable pub resume : StartEnv → ℕ → (Cnc → Cnc) → (Cnc → Cnc) → Cnc → Ret × Cnc
  resume env laser_delay_steps = run_with_options env (record {
    num_steps = laser_delay_steps % 2 ^ 28;
    backward = false;
    accelerate = true;
    decelerate = false;
    preserve_power = true;
  })
