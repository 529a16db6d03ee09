-- ===== src/Cnc/Control.antt =====
-- The commands that start no run (src/cnc.c): stop, halt, disable, enable, the Z step, and the two
-- rate settings. A command that leaves the lock is split into its locked sections, between which
-- other contexts may act.
use kernel_module_glowforge.Base.{
  ℕ, ◌/◌, ◌*◌, Bool, true, false, not, ◌||◌, ◌∷◌, ltb, if◌then◌else◌, u32_mod, ◌%◌,
}
use kernel_module_glowforge.Kernel.{
  Ret, ok, fail, is_ok, Errno, gpio_set_value, regulator_enable, regulator_disable,
  notify_state_changed,
}
use kernel_module_glowforge.Pins
use kernel_module_glowforge.Io.{change_pins, startup_pin_changes, shutdown_pin_changes}
use kernel_module_glowforge.Cnc.State.{
  Cnc, CncState, idle, running, disabled, fault, underrun, is_running, Faults, no_faults, any_fault,
  faults_and, faults_and_not, fatal_fault_conditions, step_frequency_min, step_frequency_max,
  ramp_rate_min_hz_per_s, ramp_rate_max_hz_per_s, ramp_updates_per_sec,
}
use kernel_module_glowforge.Cnc.Motion.{call, driver_stop, decel_start}

-- `cnc_stop`, in the state `c.state`
stop_from : CncState → Cnc → Ret × Cnc
stop_from idle c = (ok, c)
stop_from disabled c = (ok, c)
stop_from underrun c = (ok, call notify_state_changed (record c { state = idle }))
stop_from fault c = (fail Errno.eperm, c)
stop_from running c = (ok, decel_start c)

unfoldable pub stop : Cnc → Ret × Cnc
unfolding stop_from decel_start
stop c = stop_from c.state c

-- `cnc_halt`
halt_from : Bool → CncState → Cnc → Ret × Cnc
halt_from softirq idle c = (ok, c)
halt_from softirq disabled c = (ok, c)
halt_from softirq running c = (ok, driver_stop softirq idle c)
halt_from softirq _ c = (fail Errno.eperm, c)

unfoldable pub halt : Bool → Cnc → Ret × Cnc
unfolding halt_from driver_stop
halt softirq c = halt_from softirq c.state c

-- The locked section of `cnc_disable`; the answer is `powered_down`.
disable_from : Bool → CncState → Cnc → Bool × Cnc
disable_from softirq disabled c = (false, c)
disable_from softirq fault c = (false, c)
disable_from softirq _ c = (true, driver_stop softirq disabled c)

unfoldable pub disable_section : Bool → Cnc → Bool × Cnc
unfolding disable_from driver_stop
disable_section softirq c = disable_from softirq c.state c

-- What the regulator answers: whether the 40 V supply is on, and the status of switching it.
pub record Rail : Type 0 where
  pub is_on : Bool
  pub status : ℕ

-- `stepper_supply_off`: a failure to switch the supply is only logged.
unfoldable pub supply_off : Rail → Cnc → Cnc
supply_off rail c = if rail.is_on then call regulator_disable c else c

-- `stepper_power_off`
unfoldable pub power_off : Rail → Cnc → Cnc
unfolding supply_off
power_off rail c =
    let d = supply_off rail c in
    record d { calls = change_pins Pins.num_gpio_pins shutdown_pin_changes d.calls }

-- `stepper_power_on_unchecked`
unfoldable pub power_on_unchecked : Rail → Cnc → Cnc
power_on_unchecked rail c =
    let d = if rail.is_on then c else call regulator_enable c in
    record d { calls = change_pins Pins.num_gpio_pins startup_pin_changes d.calls }

-- `cnc_disable`: `between` is what other contexts do once the lock is released.
unfoldable pub disable : Bool → Rail → (Cnc → Cnc) → Cnc → Ret × Cnc
unfolding disable_section supply_off
disable softirq rail between c =
    let (powered_down, d) = disable_section softirq c in
    (ok, if powered_down then supply_off rail (between d) else between d)

-- The first locked section of `cnc_enable`. `live_faults` are the fault lines that read asserted.
-- The answer is the return code, and whether the power is to be switched on.
enable_from : CncState → Faults → Cnc → Ret × Bool × Cnc
enable_from disabled live_faults c =
    if any_fault (faults_and c.triggered_faults fatal_fault_conditions)
    then (fail Errno.eperm, false, c)
    else (ok, true, c)
enable_from fault live_faults c =
    if any_fault (faults_and_not live_faults c.ignored_faults)
    then (fail Errno.eperm, false, c)
    else (ok, true, record c { triggered_faults = no_faults })
enable_from idle live_faults c = (ok, false, c)
enable_from _ live_faults c = (fail Errno.eperm, false, c)

unfoldable pub enable_check : Faults → Cnc → Ret × Bool × Cnc
unfolding enable_from
enable_check live_faults c = enable_from c.state live_faults c

abbrev pub is_off : CncState → Bool
is_off disabled = true
is_off fault = true
is_off _ = false

-- The second locked section of `cnc_enable`: commit, unless a fault raced in.
unfoldable pub enable_commit : Cnc → Ret × Cnc
enable_commit c =
    if any_fault (faults_and c.triggered_faults fatal_fault_conditions)
    then (fail Errno.eperm, c)
    else if is_off c.state
    then (ok, call notify_state_changed (record c { state = idle }))
    else (ok, c)

-- `cnc_enable`: `between` is what other contexts do while the power comes on, and `rail` and
-- `rail_off` are what the regulator answers then and when the power-on is undone.
unfoldable pub enable : Faults → Rail → Rail → (Cnc → Cnc) → Cnc → Ret × Cnc
unfolding enable_check enable_commit power_on_unchecked power_off
enable live_faults rail rail_off between c =
    let (ret, need_power_on, d) = enable_check live_faults c in
    let (ret', e) = enable_commit (power_on_unchecked rail (between d)) in
    if not need_power_on then (ret, d) else (ret', if is_ok ret' then e else power_off rail_off e)

abbrev refuses_z_step : CncState → Bool
refuses_z_step running = true
refuses_z_step fault = true
refuses_z_step _ = false

-- `cnc_single_z_step`
unfoldable pub single_z_step : ℕ → Cnc → Ret × Cnc
single_z_step direction c = if refuses_z_step c.state then (fail Errno.eperm, c) else (
  ok,
  record c {
    calls =
        gpio_set_value Pins.z_dir 0
        ∷ gpio_set_value Pins.z_step 0
        ∷ gpio_set_value Pins.z_step 1
        ∷ gpio_set_value Pins.z_dir direction
        ∷ c.calls;
  },
)

-- `cnc_set_step_frequency`
unfoldable pub set_step_frequency : ℕ → Cnc → Ret × Cnc
set_step_frequency freq c =
    if ltb freq step_frequency_min || ltb step_frequency_max freq
    then (fail Errno.erange, c)
    else if is_running c.state
    then (fail Errno.ebusy, c)
    else (ok, record c { step_freq = freq; ramp_step_freq = freq })

-- `cnc_get_ramp_rate_hz_per_s`
unfoldable pub get_ramp_rate_hz_per_s : Cnc → ℕ
get_ramp_rate_hz_per_s c = (c.ramp_step_freq_delta * ramp_updates_per_sec) % u32_mod

-- `cnc_set_ramp_rate_hz_per_s`
unfoldable pub set_ramp_rate_hz_per_s : ℕ → Cnc → Ret × Cnc
set_ramp_rate_hz_per_s hz_per_s c =
    if ltb hz_per_s ramp_rate_min_hz_per_s || ltb ramp_rate_max_hz_per_s hz_per_s
    then (fail Errno.erange, c)
    else if is_running c.state
    then (fail Errno.ebusy, c)
    else (ok, record c { ramp_step_freq_delta = hz_per_s / ramp_updates_per_sec })
