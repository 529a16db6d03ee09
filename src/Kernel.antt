-- ===== src/Kernel.antt =====
-- What the driver exchanges with the kernel: the return codes of its functions, and the calls that
-- it makes to kernel services (GPIO lines, timers, the SDMA engine, regulators). The services
-- themselves are not modelled: a function of the driver leaves the list of the calls it made,
-- newest first, and takes what a call gives back as an argument.
use kernel_module_glowforge.Base.{ℕ, Bool, ◌==◌, if◌then◌else◌}

-- The error numbers that the driver returns of its own; `os` passes on what a kernel call returned.
pub data Errno : Type 0 where
  eperm enoent eio enomem ebusy enodev einval erange enodata e2big : Errno
  os : ℕ → Errno

pub data Ret : Type 0 where
  ok : Ret
  fail : Errno → Ret

abbrev pub is_ok : Ret → Bool
is_ok ok = Bool.true
is_ok (fail e) = Bool.false

-- The status of a kernel call: 0 is success, another number is the error that it reported.
abbrev pub of_status : ℕ → Ret
of_status n = if n == 0 then ok else fail (os n)

-- The timers of the stepper driver.
pub data Timer : Type 0 where
  ramp_timer charge_pump_timer laser_sample_timer : Timer

-- The calls. GPIO lines are named by their pin index (Pins), levels are 0 and 1.
pub data Call : Type 0 where
  gpio_direction_output : ℕ → ℕ → Call
  gpio_direction_input : ℕ → Call
  gpio_set_value : ℕ → ℕ → Call
  epit_stop : Call
  epit_start_hz : ℕ → Call
  epit_set_hz : ℕ → Call
  hrtimer_start : Timer → Call
  hrtimer_cancel : Timer → Call
  sdma_event_enable : Call
  sdma_event_disable : Call
  sdma_set_channel_priority : ℕ → Call
  sdma_set_run_regs : ℕ → ℕ → ℕ → Call
  sdma_set_laser_inhibit : ℕ → Call
  sdma_set_motor_lock : ℕ → Call
  sdma_write_script : Call
  sdma_set_tail : ℕ → Call
  sdma_load_scratch : ℕ → ℕ → ℕ → ℕ → Call
  regulator_enable : Call
  regulator_disable : Call
  pwm_duty : ℕ → Call
  notify_state_changed : Call
  schedule_fault_tasklet : Call
  dms_notify : Call
