-- ===== src/Cnc/State.antt =====
-- The state of the stepper driver: the members of `struct cnc` and `struct cnc_status`
-- (src/cnc_private.h) that its state machine reads and writes.
use kernel_module_glowforge.Base.{ℕ, Bool, true, false, not, ◌&&◌, ◌||◌, List}
use kernel_module_glowforge.Kernel.{Call}
use kernel_module_glowforge.Ring.{Ring}

pub data CncState : Type 0 where
  idle running disabled fault underrun : CncState

abbrev pub is_running : CncState → Bool
is_running running = true
is_running _ = false

-- A mask of fault conditions, one flag for each bit.
pub record Faults : Type 0 where
  pub fault_x : Bool
  pub fault_y1 : Bool
  pub fault_y2 : Bool

abbrev pub no_faults : Faults
no_faults = record { fault_x = false; fault_y1 = false; fault_y2 = false }

-- Whether a mask is not zero; the masks' `&`, `|` and `& ~`.
abbrev pub any_fault : Faults → Bool
any_fault f = f.fault_x || f.fault_y1 || f.fault_y2

abbrev pub faults_and : Faults → Faults → Faults
faults_and f g = record {
  fault_x = f.fault_x && g.fault_x;
  fault_y1 = f.fault_y1 && g.fault_y1;
  fault_y2 = f.fault_y2 && g.fault_y2;
}

abbrev pub faults_or : Faults → Faults → Faults
faults_or f g = record {
  fault_x = f.fault_x || g.fault_x;
  fault_y1 = f.fault_y1 || g.fault_y1;
  fault_y2 = f.fault_y2 || g.fault_y2;
}

abbrev pub faults_and_not : Faults → Faults → Faults
faults_and_not f g = record {
  fault_x = f.fault_x && not g.fault_x;
  fault_y1 = f.fault_y1 && not g.fault_y1;
  fault_y2 = f.fault_y2 && not g.fault_y2;
}

-- Every stepper fault is fatal.
abbrev pub fatal_fault_conditions : Faults
fatal_fault_conditions = record { fault_x = true; fault_y1 = true; fault_y2 = true }

pub record Cnc : Type 0 where
  pub state : CncState
  pub triggered_faults : Faults
  pub decelerating : Bool
  pub accelerating : Bool
  pub decel_on_interrupt : Bool
  pub waypoint_armed : Bool
  pub running_backward : Bool
  pub streaming : Bool
  pub underrun_count : ℕ  -- uint32_t
  pub stop_generation : ℕ  -- unsigned int
  pub step_freq : ℕ
  pub ramp_step_freq : ℕ
  pub ramp_step_freq_delta : ℕ
  pub ignored_faults : Faults
  pub pending_faults : Faults
  pub sdma_mailbox : ℕ
  pub ring : Ring
  -- The calls that the driver has made, newest first.
  pub calls : List Call

-- The bounds and defaults of the frequencies, in Hz and Hz/s.
abbrev pub step_frequency_min : ℕ
step_frequency_min = 1000

abbrev pub step_frequency_max : ℕ
step_frequency_max = 200000

abbrev pub step_frequency_default : ℕ
step_frequency_default = 10000

abbrev pub ramp_min_step_frequency : ℕ
ramp_min_step_frequency = 900

abbrev pub ramp_updates_per_sec : ℕ
ramp_updates_per_sec = 100

abbrev pub ramp_rate_min_hz_per_s : ℕ
ramp_rate_min_hz_per_s = 10000

abbrev pub ramp_rate_max_hz_per_s : ℕ
ramp_rate_max_hz_per_s = 500000

abbrev pub ramp_rate_default_hz_per_s : ℕ
ramp_rate_default_hz_per_s = 125000
