-- ===== src/Cnc/Fault.antt =====
-- Stepper faults (src/cnc.c): the edge handler, the tasklet that stops the driver, the state that the
-- probe starts from, and the panic handler.
use kernel_module_glowforge.Base.{
  ℕ, Bool, true, false, not, ◌&&◌, ◌||◌, [], ◌∷◌, ◌==◌, if◌then◌else◌,
}
use kernel_module_glowforge.Kernel.{epit_stop, schedule_fault_tasklet}
use kernel_module_glowforge.Pins
use kernel_module_glowforge.Io.{change_pins, shutdown_pin_changes}
use kernel_module_glowforge.Ring.{Ring}
use kernel_module_glowforge.Cnc.State.{
  Cnc, CncState, idle, disabled, fault, Faults, no_faults, any_fault, faults_and, faults_or,
  faults_and_not, fatal_fault_conditions, step_frequency_default, ramp_rate_default_hz_per_s,
}
use kernel_module_glowforge.Cnc.Motion.{driver_stop}
use kernel_module_glowforge.Cnc.Control.{set_step_frequency, set_ramp_rate_hz_per_s}

-- The fault signals: the bits of a mask.
pub data Signal : Type 0 where
  signal_x signal_y1 signal_y2 : Signal

abbrev pub bit_of : Signal → Faults
bit_of signal_x = record no_faults { fault_x = true }
bit_of signal_y1 = record no_faults { fault_y1 = true }
bit_of signal_y2 = record no_faults { fault_y2 = true }

-- `cnc_fault_irq_handler`: `line` is what the signal's line reads, active low.
unfoldable pub fault_irq : Signal → ℕ → Cnc → Cnc
fault_irq s line c =
    if not (line == 0) || any_fault (faults_and c.ignored_faults (bit_of s)) then c else record c {
      pending_faults = faults_or c.pending_faults (bit_of s);
      calls = schedule_fault_tasklet ∷ c.calls;
    }

abbrev pub is_fault : CncState → Bool
is_fault fault = true
is_fault _ = false

-- `fault_tasklet_fn`: the loop over the conditions takes every pending one.
unfoldable pub fault_tasklet : Cnc → Cnc
unfolding driver_stop
fault_tasklet c =
    let need_to_halt = any_fault (faults_and c.pending_faults fatal_fault_conditions) in
    let d = record c {
      triggered_faults = faults_or c.triggered_faults c.pending_faults;
      pending_faults = no_faults;
    } in
    if need_to_halt && not (is_fault c.state) then driver_stop true fault d else d

-- The driver as `cnc_probe` allocates it, zeroed.
abbrev pub zeroed : Ring → Cnc
zeroed ring = record {
  state = idle;
  triggered_faults = no_faults;
  decelerating = false;
  accelerating = false;
  decel_on_interrupt = false;
  waypoint_armed = false;
  running_backward = false;
  streaming = false;
  underrun_count = 0;
  stop_generation = 0;
  step_freq = 0;
  ramp_step_freq = 0;
  ramp_step_freq_delta = 0;
  ignored_faults = no_faults;
  pending_faults = no_faults;
  sdma_mailbox = 0;
  ring = ring;
  calls = [];
}

-- The part of `cnc_probe` that sets the state up, with that of `cnc_register_fault_irqs`: `live` are
-- the fault lines that read asserted, `ring` is the ring that `cnc_buffer_init` leaves.
unfoldable pub probe : Faults → Ring → Cnc
unfolding set_step_frequency set_ramp_rate_hz_per_s
probe live ring =
    let c1 = (set_step_frequency step_frequency_default (zeroed ring)).1 in
    let c2 = (set_ramp_rate_hz_per_s ramp_rate_default_hz_per_s c1).1 in
    let c3 = record c2 { state = disabled } in
    let faults = faults_and_not live c3.ignored_faults in
    let c4 = record c3 { triggered_faults = faults } in
    if any_fault faults then record c4 { state = fault } else c4

-- `cnc_panic_handler`
unfoldable pub panic_handler : Cnc → Cnc
panic_handler c = record c {
  calls = change_pins Pins.num_gpio_pins shutdown_pin_changes (epit_stop ∷ c.calls);
}
