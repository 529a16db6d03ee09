-- ===== src/Cnc/Event.antt =====
-- What can happen to the driver, one locked section or interrupt handler at a time, in any order.
-- A start is split as in Cnc.Run: any commit may follow any other event, with any generation that
-- it read before.
use kernel_module_glowforge.Base.{ℕ, ◌%◌, ◌^◌, Bool, List, [], ◌∷◌, ◌++◌, ◌≡◌, refl}
use kernel_module_glowforge.Kernel.{gpio_set_value, dms_notify}
use kernel_module_glowforge.Pins
use kernel_module_glowforge.Ring.{Kfifo, Fetch}
use kernel_module_glowforge.Buffer.{Copy, add_user_data, clear_pulse_data, is_empty}
use kernel_module_glowforge.Cnc.State.{Cnc, Faults}
use kernel_module_glowforge.Cnc.Motion.{call, ramp_update, sdma_interrupt}
use kernel_module_glowforge.Cnc.Control.{
  Rail, stop, halt, disable_section, supply_off, enable_check, enable_commit, power_on_unchecked,
  power_off, single_z_step, set_step_frequency, set_ramp_rate_hz_per_s,
}
use kernel_module_glowforge.Cnc.Run.{
  StartEnv, RunOptions, verify_sdma_script, publish_run, power_run, run_commit,
}
use kernel_module_glowforge.Cnc.Fault.{Signal, fault_irq, fault_tasklet}
use kernel_module_glowforge.Cnc.Laser.{set_laser_latch, charge_pump_timer_cb, set_streaming}
use kernel_module_glowforge.Cnc.Modes.{set_microstep_mode}
use kernel_module_glowforge.Cnc.Decay.{set_decay_mode}

-- `cnc_interlock_drive`
unfoldable pub interlock_drive : ℕ → Cnc → Cnc
interlock_drive level c = call (gpio_set_value Pins.interlock_latch_reset level) c

pub data Event : Type 0 where
  ramp_tick charge_pump_tick sdma_signals fault_tasklet_runs stops : Event
  script_sets_mailbox : ℕ → Event
  fault_edge : Signal → ℕ → Event
  halts disables : Bool → Event
  enable_checks : Faults → Event
  enable_commits : Event
  powers_on powers_off supply_goes_off : Rail → Event
  z_steps sets_freq sets_ramp_rate sets_latch : ℕ → Event
  sets_streaming : Bool → Event
  ignores : Faults → Event
  writes : Copy → ℕ → Event
  clears : ℕ → ℕ → Event
  checks_data : Fetch → Event
  verifies : StartEnv → Event
  publishes powers_run : StartEnv → RunOptions → Event
  commits : StartEnv → RunOptions → ℕ → Event
  sets_mode sets_decay : ℕ → ℕ → Event
  drives_interlock : ℕ → Event
  tells_listeners : Event

module _ (k : Kfifo) where
  unfoldable pub step : Event → Cnc → Cnc
  unfolding ramp_update sdma_interrupt stop halt disable_section supply_off enable_check
      enable_commit power_on_unchecked power_off single_z_step set_step_frequency
      set_ramp_rate_hz_per_s fault_irq fault_tasklet set_laser_latch charge_pump_timer_cb
      set_streaming add_user_data clear_pulse_data is_empty verify_sdma_script publish_run power_run
      run_commit set_microstep_mode set_decay_mode interlock_drive
  step ramp_tick c = (ramp_update c).1
  step charge_pump_tick c = (charge_pump_timer_cb c).1
  step sdma_signals c = sdma_interrupt c
  step fault_tasklet_runs c = fault_tasklet c
  step stops c = (stop c).1
  step (script_sets_mailbox n) c = record c { sdma_mailbox = n % 2 ^ 32 }
  step (fault_edge s line) c = fault_irq s line c
  step (halts softirq) c = (halt softirq c).1
  step (disables softirq) c = (disable_section softirq c).1
  step (enable_checks live) c = (enable_check live c).2
  step enable_commits c = (enable_commit c).1
  step (powers_on rail) c = power_on_unchecked rail c
  step (powers_off rail) c = power_off rail c
  step (supply_goes_off rail) c = supply_off rail c
  step (z_steps direction) c = (single_z_step direction c).1
  step (sets_freq freq) c = (set_step_frequency freq c).1
  step (sets_ramp_rate rate) c = (set_ramp_rate_hz_per_s rate c).1
  step (sets_latch value) c = (set_laser_latch value c).1
  step (sets_streaming on) c = set_streaming on c
  step (ignores mask) c = record c { ignored_faults = mask }
  step (writes answers count) c = (add_user_data k answers count c).1
  step (clears status opts) c = (clear_pulse_data k status opts c).1
  step (checks_data fetch) c = (is_empty k fetch c).1
  step (verifies env) c = (verify_sdma_script env c).1
  step (publishes env opts) c = (publish_run k env opts c).1
  step (powers_run env opts) c = power_run k env opts c
  step (commits env opts gen) c = (run_commit env opts gen c).1
  step (sets_mode axis mode) c = (set_microstep_mode axis mode c).1
  step (sets_decay axis mode) c =
      (set_decay_mode axis mode (record { decay_mode = λ a. 0; cnc = c })).1.cnc
  step (drives_interlock level) c = interlock_drive level c
  step tells_listeners c = call dms_notify c

  unfoldable pub steps : List Event → Cnc → Cnc
  steps [] c = c
  steps (e ∷ es) c = steps es (step e c)

  pub steps-append : (es fs : List Event) (c : Cnc) → steps (es ++ fs) c ≡ steps fs (steps es c)
  unfolding steps
  steps-append [] fs c = refl
  steps-append (e ∷ es) fs c = steps-append es fs (step e c)

  -- What every event keeps, every sequence of events keeps.
  pub steps_inv {ℓ} :
      (P : Cnc → Type ℓ)
      → ((e : Event) (c : Cnc) → P c → P (step e c))
      → (es : List Event) (c : Cnc) → P c
      → P (steps es c)
  unfolding steps
  steps_inv P keep [] c h = h
  steps_inv P keep (e ∷ es) c h = steps_inv P keep es (step e c) (keep e c h)
