-- ===== src/Access/Tests.antt =====
-- A session of user space from the probe on.
use kernel_module_glowforge.Base.{◌≡◌, ◌++◌, refl, true, false, List, [], ◌∷◌}
use kernel_module_glowforge.Ring.{Ring, Fetch}
use kernel_module_glowforge.Ring.Plain.{plain_kfifo}
use kernel_module_glowforge.Buffer.{Copy, is_empty}
use kernel_module_glowforge.Cnc.State.{no_faults, running, idle, any_fault}
use kernel_module_glowforge.Cnc.Control.{Rail, enable}
use kernel_module_glowforge.Cnc.Run.{StartEnv, run, run_with_options, start_run}
use kernel_module_glowforge.Cnc.Fault.{probe}
use kernel_module_glowforge.Cnc.Event.{
  ramp_tick, charge_pump_tick, fault_tasklet_runs, drives_interlock, steps,
}
use kernel_module_glowforge.Cnc.Invariant.Faults.{FaultStops}
use kernel_module_glowforge.Cnc.Invariant.Laser.{LaserSafe}
use kernel_module_glowforge.Cnc.Invariant.Flags.{FlagsFit}
use kernel_module_glowforge.Cnc.Invariant.Rates.{RatesFit}
use kernel_module_glowforge.Pulsedev.{
  number, negative, f_setlk, f_wrlck, pulsedev_open, pulsedev_flock, pulsedev_write,
}
use kernel_module_glowforge.Pulsedev.Settings.{Text, step_freq_attr, store, command_store}
use kernel_module_glowforge.Access.{
  Act, does, happens, Device, Gaps, act, acts, writes_enable, writes_run, writes_resume,
  writes_setting, opens_device, locks_device, writes_device, closes_device,
}
use kernel_module_glowforge.Access.Reaches.{Reaches}
use kernel_module_glowforge.Access.Reached.{user_space_is_events}
use kernel_module_glowforge.Access.CanRun.{IsGood, brought_back, undisturbed, can_always_run}

abbrev ring : Ring
ring = record { fifo = record { in_ix = 0; out_ix = 0; mask = 65535 }; total_bytes = 0 }

abbrev rail : Rail
rail = record { is_on = false; status = 0 }

abbrev fetched : Fetch
fetched = record { status = 0; value = 0 }

abbrev copied : Copy
copied = record { fetch = fetched; copy_status = 0; copied = 2000; publish_status = 0 }

abbrev env : StartEnv
env = record {
  empty_fetch = fetched;
  script_fetch_status = 0;
  script_intact = true;
  script_write_status = 0;
  backtrack_fetch = fetched;
  regs_status = 0;
  inhibit_status = 0;
  was_powered = true;
  rail = rail;
  rail_off = rail;
  latch_level = 1;
  laser_bits = 6;
}

abbrev gaps : Gaps
gaps = record { env = env; between = drives_interlock 0 ∷ []; during = charge_pump_tick ∷ [] }

abbrev fresh : Device
fresh = record {
  pulsedev = record {
    cnc = probe no_faults ring;
    pulsedev_in_use = false;
    deadman_switch_active = false;
  };
  decay_mode = λ a. 1;
}

abbrev ten_kilohertz : Text
ten_kilohertz = record { parsed = number 10000; chars = [] }

-- A holder opens the device, arms the dead man's switch, sets a frequency, enables the driver, writes
-- 2000 bytes, runs, and closes the device while the job runs.
abbrev until_run : List Act
until_run =
    does opens_device
    ∷ does (locks_device f_setlk f_wrlck)
    ∷ does (writes_setting step_freq_attr ten_kilohertz)
    ∷ does (writes_enable no_faults rail rail [] (49 ∷ []))
    ∷ does (writes_device copied 2000)
    ∷ does (writes_run gaps (49 ∷ 10 ∷ []))
    ∷ []

abbrev session : List Act
session =
    until_run
    ++ happens ramp_tick
      ∷ does (writes_resume gaps (negative 300))
      ∷ does (closes_device (ramp_tick ∷ []) (fault_tasklet_runs ∷ []))
      ∷ []

user_space_is_events_example :
    let c = (acts plain_kfifo session fresh).pulsedev.cnc in
    Reaches plain_kfifo (probe no_faults ring) c
    × FaultStops c
    × LaserSafe c
    × RatesFit c
    × FlagsFit c
user_space_is_events_example = user_space_is_events plain_kfifo no_faults ring session fresh refl

runs : (acts plain_kfifo until_run fresh).pulsedev.cnc.state ≡ running
unfolding acts act command_store run run_with_options pulsedev_write enable store pulsedev_flock
    pulsedev_open probe steps start_run
runs = refl

abbrev fed : List Act
fed = does (writes_device copied 2000) ∷ happens ramp_tick ∷ []

env-IsGood : IsGood env
env-IsGood = record {
  script_fetched = refl;
  script_written = refl;
  regs_written = refl;
  inhibit_written = refl;
}

has_data :
    (is_empty plain_kfifo env.empty_fetch
      (brought_back plain_kfifo rail rail (acts plain_kfifo fed fresh)).pulsedev.cnc).0
    ≡ false
unfolding acts is_empty act command_store enable pulsedev_write probe steps
has_data = refl

can_always_run_example :
    let e = brought_back plain_kfifo rail rail (acts plain_kfifo fed fresh) in
    (e.pulsedev.cnc.state ≡ idle)
    × (any_fault e.pulsedev.cnc.triggered_faults ≡ false)
    × ((act plain_kfifo (does (writes_run (undisturbed env) (49 ∷ 10 ∷ []))) e).pulsedev.cnc.state
        ≡ running)
can_always_run_example =
    can_always_run plain_kfifo no_faults ring fed fresh rail rail env refl env-IsGood has_data
