-- ===== src/Access.antt =====
-- What user space does to the stepper driver: the attributes and the pulse device (src/cnc_api.c)
-- over the commands of src/cnc.c, mixed with what interrupts and timers do.
pub mod Reaches
pub mod Starts
pub mod Stores
pub mod Reached
pub mod CanRun
mod Tests
use kernel_module_glowforge.Base.{ℕ, Bool, Option, none, some, List, [], ◌∷◌, if◌then◌else◌}
use kernel_module_glowforge.Ring.{Kfifo, Fetch}
use kernel_module_glowforge.Buffer.{Copy}
use kernel_module_glowforge.Cnc.State.{Cnc, Faults}
use kernel_module_glowforge.Cnc.Control.{Rail, stop, halt, disable, enable, single_z_step}
use kernel_module_glowforge.Cnc.Run.{StartEnv, run}
use kernel_module_glowforge.Cnc.Laser.{set_laser_latch}
use kernel_module_glowforge.Cnc.Event.{Event, step, steps}
use kernel_module_glowforge.Pulsedev.{
  Pulsedev, pulsedev_open, pulsedev_close, pulsedev_flock, pulsedev_write, pulsedev_llseek, LockCmd,
  LockType, Signed, resume_store,
}
use kernel_module_glowforge.Pulsedev.Settings.{Setting, Text, store, command_store, bool_store}
use kernel_module_glowforge.Pulsedev.Modes.{mode_store, decay_store, free_show, max_backtrack_show}

-- What a start meets: the kernel's answers, and the events of other contexts in its two gaps.
pub record Gaps : Type 0 where
  pub env : StartEnv
  pub between : List Event
  pub during : List Event

-- A write to an attribute, by its characters or what its text parses to, a read that looks at the
-- engine, or an operation on the device, each with what the kernel answers to it. The reads that only
-- look at the driver, and the motor locks, which are the engine's, change nothing here.
pub data Access : Type 0 where
  writes_run : Gaps → List ℕ → Access
  writes_resume : Gaps → Signed → Access
  writes_stop writes_halt writes_z_step writes_laser_latch : List ℕ → Access
  writes_disable : Rail → List Event → List ℕ → Access
  writes_enable : Faults → Rail → Rail → List Event → List ℕ → Access
  writes_setting : Setting → Text → Access
  writes_mode writes_decay : ℕ → Option ℕ → Access
  reads_free reads_max_backtrack : Fetch → Access
  opens_device : Access
  closes_device : List Event → List Event → Access
  locks_device : LockCmd → LockType → Access
  writes_device : Copy → ℕ → Access
  seeks_device : ℕ → Bool → ℕ → Access

-- The driver data: with the decay modes.
pub record Device : Type 0 where
  pub pulsedev : Pulsedev
  pub decay_mode : ℕ → ℕ

-- What a file operation leaves of the driver data that it found.
abbrev pub bound : Pulsedev → Option Pulsedev → Pulsedev
bound p none = p
bound p (some q) = q

-- The argument of the two Boolean attributes as a number
abbrev pub of_Bool : Bool → ℕ
of_Bool b = if b then 1 else 0

-- User space does something, or another context does.
pub data Act : Type 0 where
  does : Access → Act
  happens : Event → Act

module _ (k : Kfifo) where
  -- The stores of the attributes that reach the driver's own state
  unfoldable pub attribute : Access → Cnc → Cnc
  attribute (writes_run g chars) c =
      (command_store (run k g.env (steps k g.between) (steps k g.during)) chars c).1
  attribute (writes_resume g raw) c =
      (resume_store k g.env (steps k g.between) (steps k g.during) raw c).1
  attribute (writes_stop chars) c = (command_store stop chars c).1
  attribute (writes_halt chars) c = (command_store (halt Bool.false) chars c).1
  attribute (writes_z_step chars) c = (bool_store (λ b. single_z_step (of_Bool b)) chars c).1
  attribute (writes_laser_latch chars) c = (bool_store (λ b. set_laser_latch (of_Bool b)) chars c).1
  attribute (writes_disable rail between chars) c =
      (command_store (disable Bool.false rail (steps k between)) chars c).1
  attribute (writes_enable live rail rail_off between chars) c =
      (command_store (enable live rail rail_off (steps k between)) chars c).1
  attribute (writes_setting s t) c = (store s t c).1
  attribute (writes_mode axis mode) c = (mode_store axis mode c).1
  attribute (reads_free fetch) c = (free_show k fetch c).1
  attribute (reads_max_backtrack fetch) c = (max_backtrack_show k fetch c).1
  attribute _ c = c

  -- The operations of the pulse device
  unfoldable pub file_operation : Access → Pulsedev → Pulsedev
  file_operation opens_device p = bound p (pulsedev_open (some p)).1
  file_operation (closes_device between during) p =
      bound p (pulsedev_close (steps k between) (steps k during) (some p)).1
  file_operation (locks_device cmd type) p = bound p (pulsedev_flock cmd type (some p)).1
  file_operation (writes_device answers count) p =
      bound p (pulsedev_write k answers count (some p)).1
  file_operation (seeks_device load_status valid off) p =
      bound p (pulsedev_llseek k load_status valid off (some p)).1
  file_operation _ p = p

  unfoldable pub access : Access → Device → Device
  unfolding attribute file_operation
  access (writes_decay axis mode) d =
      let e =
        (decay_store axis mode (record { decay_mode = d.decay_mode; cnc = d.pulsedev.cnc })).1 in
      record { pulsedev = record (d.pulsedev) { cnc = e.cnc }; decay_mode = e.decay_mode }
  access a d =
      let p = file_operation a d.pulsedev in
      record d { pulsedev = record p { cnc = attribute a p.cnc } }

  unfoldable pub act : Act → Device → Device
  unfolding access step
  act (does a) d = access a d
  act (happens e) d = record d { pulsedev = record (d.pulsedev) { cnc = step k e d.pulsedev.cnc } }

  unfoldable pub acts : List Act → Device → Device
  acts [] d = d
  acts (a ∷ rest) d = acts rest (act a d)
