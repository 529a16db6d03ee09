-- ===== src/Cnc/Tests.antt =====
-- The driver run through concrete events, and its theorems at them.
use kernel_module_glowforge.Base.{
  if◌then◌else◌, ◌+◌, ◌*◌, ◌≤◌, ◌<◌, ◌≡◌, ◌≢◌, refl, true, false, some, List, [], ◌∷◌, arith,
}
use kernel_module_glowforge.Kernel.{ok, fail, is_ok, Errno}
use kernel_module_glowforge.Pins
use kernel_module_glowforge.Io.{drive, output}
use kernel_module_glowforge.Ring.{Ring, Fetch}
use kernel_module_glowforge.Ring.Plain.{plain_kfifo}
use kernel_module_glowforge.Cnc.State.{
  Cnc, idle, running, disabled, fault, no_faults, any_fault, faults_and_not,
}
use kernel_module_glowforge.Cnc.Recovers.{brings_back, can_always_start}
use kernel_module_glowforge.Cnc.Motion.{driver_stop}
use kernel_module_glowforge.Cnc.Control.{Rail, power_off, stop, enable}
use kernel_module_glowforge.Cnc.Run.{
  StartEnv, RunOptions, start_run, run, run_with_options, verify_sdma_script, publish_run,
  power_run, run_commit,
}
use kernel_module_glowforge.Buffer.{is_empty}
use kernel_module_glowforge.Cnc.Fault.{zeroed, probe, signal_y1, panic_handler}
use kernel_module_glowforge.Cnc.Event.{
  Event, ramp_tick, stops, fault_edge, fault_tasklet_runs, commits, step, steps,
}
use kernel_module_glowforge.Cnc.Invariant.Flags.{FlagsFit, probe-steps-FlagsFit}
use kernel_module_glowforge.Cnc.Invariant.Faults.{FaultStops, probe-steps-FaultStops}
use kernel_module_glowforge.Cnc.Invariant.Rates.{RatesFit, probe-steps-RatesFit}
use kernel_module_glowforge.Cnc.Invariant.Laser.{LaserSafe, probe-steps-LaserSafe}
use kernel_module_glowforge.Cnc.Outputs.{IsStill, IsOff, stop-IsStill}
use kernel_module_glowforge.Cnc.Ramp.{updates, AtRest, decel_ends, stop_comes_to_rest}
use kernel_module_glowforge.Cnc.StartRace.{
  prepared, comes_to_commit, stops_made, stopped_start_fails,
}
use kernel_module_glowforge.Cnc.StartRules.{IsOrderly, IsUnlocked, start_rules}
use kernel_module_glowforge.Cnc.Recovery.{cleared, enable-fault}

abbrev ring : Ring
ring = record { fifo = record { in_ix = 5000; out_ix = 0; mask = 65535 }; total_bytes = 5000 }

abbrev fetched : Fetch
fetched = record { status = 0; value = 0 }

abbrev rail : Rail
rail = record { is_on = false; status = 0 }

abbrev env : StartEnv
env = record {
  empty_fetch = fetched;
  script_fetch_status = 0;
  script_intact = true;
  script_write_status = 0;
  backtrack_fetch = fetched;
  regs_status = 0;
  inhibit_status = 0;
  was_powered = false;
  rail = rail;
  rail_off = rail;
  latch_level = 0;
  laser_bits = 6;
}

abbrev forward : RunOptions
forward = record {
  num_steps = 0;
  backward = false;
  accelerate = false;
  decelerate = false;
  preserve_power = false;
}

-- The driver after the probe, and one that runs.
abbrev probed : Cnc
probed = record (zeroed ring) {
  state = disabled;
  step_freq = 10000;
  ramp_step_freq = 10000;
  ramp_step_freq_delta = 1250;
}

abbrev cutting : Cnc
cutting = record probed { state = running }

-- A start commits, a stop decelerates, a fault comes in.
abbrev faulty_stop : List Event
faulty_stop =
    commits env forward 0 ∷ stops ∷ ramp_tick ∷ fault_edge signal_y1 0 ∷ fault_tasklet_runs ∷ []

ends_in_fault : (steps plain_kfifo faulty_stop (probe no_faults ring)).state ≡ fault
unfolding steps step probe
ends_in_fault = refl

probe_without_faults : probe no_faults ring ≡ probed
unfolding probe
probe_without_faults = refl

runs : (run plain_kfifo env (λ c. c) (λ c. c) probed).0 ≡ ok
unfolding run run_with_options start_run is_empty verify_sdma_script publish_run power_run
    run_commit power_off
runs = refl

probe-steps-FlagsFit_example : FlagsFit (steps plain_kfifo faulty_stop (probe no_faults ring))
probe-steps-FlagsFit_example = probe-steps-FlagsFit plain_kfifo no_faults ring faulty_stop

probe-steps-FaultStops_example : FaultStops (steps plain_kfifo faulty_stop (probe no_faults ring))
probe-steps-FaultStops_example = probe-steps-FaultStops plain_kfifo no_faults ring faulty_stop

probe-steps-RatesFit_example : RatesFit (steps plain_kfifo faulty_stop (probe no_faults ring))
probe-steps-RatesFit_example = probe-steps-RatesFit plain_kfifo no_faults ring faulty_stop

probe-steps-LaserSafe_example : LaserSafe (steps plain_kfifo faulty_stop (probe no_faults ring))
probe-steps-LaserSafe_example = probe-steps-LaserSafe plain_kfifo no_faults ring faulty_stop

stop-IsStill_example :
    IsStill (driver_stop true fault cutting).calls
    × (fault ≡ disabled → IsOff (driver_stop true fault cutting).calls)
    × IsStill (panic_handler cutting).calls
    × IsOff (panic_handler cutting).calls
stop-IsStill_example = stop-IsStill true fault cutting

cutting-RatesFit : RatesFit cutting
cutting-RatesFit = ground arith

slowing-RatesFit : RatesFit (stop cutting).1
unfolding stop
slowing-RatesFit = ground arith

slowing : (stop cutting).1.decelerating ≡ true
unfolding stop
slowing = refl

-- From 10 kHz at 1250 Hz an update.
distance : (stop cutting).1.ramp_step_freq ≤ 900 + 8 * (stop cutting).1.ramp_step_freq_delta
unfolding stop
distance = omega arith

rests_after_nine : AtRest (updates 9 (stop cutting).1)
rests_after_nine = decel_ends (stop cutting).1 8 slowing-RatesFit slowing distance

stop_comes_to_rest_example : ((stop cutting).0 ≡ ok) × AtRest (updates 1992 (stop cutting).1)
stop_comes_to_rest_example = stop_comes_to_rest cutting cutting-RatesFit refl

-- A fault that comes in while a start prepares.
abbrev fault_comes : List Event
fault_comes = fault_edge signal_y1 0 ∷ fault_tasklet_runs ∷ []

stopped_meanwhile :
    let d = prepared plain_kfifo env forward probed in
    stops_made d.calls < stops_made (steps plain_kfifo fault_comes d).calls
unfolding steps step
stopped_meanwhile = omega arith

stopped_start_fails_example :
    let r = start_run plain_kfifo env forward 0 (steps plain_kfifo fault_comes) probed in
    let d = prepared plain_kfifo env forward probed in
    (is_ok r.0 ≡ false)
    × (r.1.state ≡ (
        if comes_to_commit plain_kfifo env forward probed
        then (steps plain_kfifo fault_comes d).state
        else probed.state))
stopped_start_fails_example =
    stopped_start_fails plain_kfifo env forward fault_comes probed (omega arith) (omega arith)
      stopped_meanwhile

probed-FlagsFit : FlagsFit probed
probed-FlagsFit = ground arith

start_rules_example :
    let d = step plain_kfifo (commits env forward 0) probed in
    (probed.state ≢ running → d.state ≡ running → IsOrderly (commits env forward 0) probed)
    × (drive Pins.laser_on probed.calls ≢ some (output 0)
        → drive Pins.laser_on d.calls ≡ some (output 0)
        → IsUnlocked (commits env forward 0) × (d.decelerating ≡ false))
start_rules_example = start_rules plain_kfifo (commits env forward 0) probed probed-FlagsFit

-- A driver that a fault of Y1 has stopped; the line still reads asserted.
abbrev faulted : Cnc
faulted = record probed { state = fault; triggered_faults = record no_faults { fault_y1 = true } }

clears_a_fault :
    let live = record no_faults { fault_y1 = true } in
    let c = faulted in
    let r = enable live rail rail (λ d. d) c in
    let e = cleared live rail rail (λ d. d) c in
    (any_fault (faults_and_not live c.ignored_faults) ≡ true → r ≡ (fail Errno.eperm, c))
    × (any_fault (faults_and_not live c.ignored_faults) ≡ false
        → (any_fault e.triggered_faults ≡ true → (r.0 ≡ fail Errno.eperm) × IsOff r.1.calls)
          × (any_fault e.triggered_faults ≡ false
              → e.state ≡ fault
              → (r.0 ≡ ok) × (r.1.state ≡ idle) × (any_fault r.1.triggered_faults ≡ false)))
clears_a_fault = enable-fault (record no_faults { fault_y1 = true }) rail rail (λ d. d) faulted refl

starts_again :
    let d = steps plain_kfifo brings_back (steps plain_kfifo faulty_stop (probe no_faults ring)) in
    (d.state ≡ idle)
    × (any_fault d.triggered_faults ≡ false)
    × ((step plain_kfifo (commits env forward d.stop_generation) d).state ≡ running)
starts_again = can_always_start plain_kfifo no_faults ring faulty_stop env forward
