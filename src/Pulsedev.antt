-- ===== src/Pulsedev.antt =====
-- The pulse device and the attribute stores of the stepper driver (src/cnc_api.c). A file operation
-- finds no driver data (`none`) once the driver is unbound. The parsing of the text of an attribute
-- is the kernel's: a store takes what it gave.
pub mod Deadman
pub mod Holders
pub mod Stores
pub mod Settings
pub mod Modes
mod Tests
use kernel_module_glowforge.Base.{
  ℕ, ◌+◌, ◌-◌, ◌%◌, ◌^◌, Bool, true, false, not, ◌&&◌, ◌||◌, Option, none, some, ltb, leb, ◌==◌,
  if◌then◌else◌,
}
use kernel_module_glowforge.Kernel.{Ret, ok, fail, Errno, dms_notify}
use kernel_module_glowforge.Ring.{Kfifo}
use kernel_module_glowforge.Buffer.{Copy, Count, failed, add_user_data, clear_pulse_data}
use kernel_module_glowforge.Cnc.State.{Cnc, CncState, is_running, Faults}
use kernel_module_glowforge.Cnc.Motion.{call}
use kernel_module_glowforge.Cnc.Control.{halt}
use kernel_module_glowforge.Cnc.Run.{StartEnv, backtrack, resume}
use kernel_module_glowforge.Cnc.Laser.{set_laser_latch}

-- The driver data with the members that only the device's operations use.
pub record Pulsedev : Type 0 where
  pub cnc : Cnc
  pub pulsedev_in_use : Bool
  pub deadman_switch_active : Bool

-- `pulsedev_open`
unfoldable pub pulsedev_open : Option Pulsedev → Ret × Option Pulsedev
pulsedev_open none = (fail Errno.enodev, none)
pulsedev_open (some p) =
    if p.pulsedev_in_use
    then (fail Errno.ebusy, some p)
    else (ok, some (record p { pulsedev_in_use = true; deadman_switch_active = false }))

-- The emergency stop of `pulsedev_close`, on the state that it read.
unfoldable pub deadman_stop : Bool → CncState → Cnc → Cnc
unfolding halt
deadman_stop active st c = if active && is_running st then call dms_notify (halt false c).1 else c

-- `pulsedev_close`: `between` is what other contexts do after the state is read, and `during` what
-- they do while the chain of listeners is called and up to the lock of the laser latch.
unfoldable pub pulsedev_close : (Cnc → Cnc) → (Cnc → Cnc) → Option Pulsedev → Ret × Option Pulsedev
unfolding deadman_stop set_laser_latch
pulsedev_close between during none = (fail Errno.enodev, none)
pulsedev_close between during (some p) =
    let c = deadman_stop p.deadman_switch_active p.cnc.state (between p.cnc) in
    (ok, some (record p { cnc = (set_laser_latch 1 (during c)).1; pulsedev_in_use = false }))

-- The commands and lock types that `flock` gives a driver; `other` stands for every other command.
pub data LockCmd : Type 0 where
  f_setlk f_setlkw other_cmd : LockCmd

pub data LockType : Type 0 where
  f_rdlck f_wrlck f_unlck : LockType

abbrev pub is_setlk : LockCmd → Bool
is_setlk other_cmd = false
is_setlk _ = true

abbrev pub is_rdlck : LockType → Bool
is_rdlck f_rdlck = true
is_rdlck _ = false

abbrev pub is_unlck : LockType → Bool
is_unlck f_unlck = true
is_unlck _ = false

-- `pulsedev_flock`
unfoldable pub pulsedev_flock : LockCmd → LockType → Option Pulsedev → Ret × Option Pulsedev
pulsedev_flock cmd type none = (fail Errno.enodev, none)
pulsedev_flock cmd type (some p) =
    if not (is_setlk cmd) || is_rdlck type
    then (fail Errno.einval, some p)
    else (ok, some (record p { deadman_switch_active = not (is_unlck type) }))

module _ (k : Kfifo) where
  -- `pulsedev_write`
  unfoldable pub pulsedev_write : Copy → ℕ → Option Pulsedev → Count × Option Pulsedev
  unfolding add_user_data
  pulsedev_write answers count none = (failed Errno.enodev, none)
  pulsedev_write answers count (some p) =
      let (n, c) = add_user_data k answers count p.cnc in (n, some (record p { cnc = c }))

  -- `pulsedev_llseek`: a negative offset, or another origin than SEEK_SET, is not `valid`.
  unfoldable pub pulsedev_llseek : ℕ → Bool → ℕ → Option Pulsedev → Ret × Option Pulsedev
  unfolding clear_pulse_data
  pulsedev_llseek load_status valid off none = (fail Errno.enodev, none)
  pulsedev_llseek load_status valid off (some p) =
      let (r, c) = clear_pulse_data k load_status off p.cnc in
      if not valid || ltb 2 off
      then (fail Errno.einval, some p)
      else (r, some (record p { cnc = c }))

-- What `kstrtoul` gives: an error, or a number.
pub data Parsed : Type 0 where
  bad : Errno → Parsed
  number : ℕ → Parsed

-- `ignored_faults_store`
unfoldable pub ignored_faults_store : Parsed → Cnc → Ret × Cnc
ignored_faults_store (bad e) c = (fail e, c)
ignored_faults_store (number new_mask) c =
    let mask : Faults = record {
      fault_x = new_mask % 2 == 1;
      fault_y1 = leb 2 (new_mask % 4);
      fault_y2 = leb 4 (new_mask % 8);
    } in
    if ltb 7 new_mask then (fail Errno.einval, c) else (ok, record c { ignored_faults = mask })

-- What `kstrtoll` gives, with the sign apart: `negative n` is `-n`, for a positive `n`.
pub data Signed : Type 0 where
  unparsed : Errno → Signed
  positive : ℕ → Signed
  negative : ℕ → Signed

-- What a write to `resume` asks for, once its number is in range.
pub data Request : Type 0 where
  refused : Errno → Request
  walks_back : ℕ → Request
  goes_on : ℕ → Request

-- The number as `int32_t`, and the check that its magnitude has 28 bits.
unfoldable pub resume_request : Signed → Request
resume_request (unparsed e) = refused e
resume_request (negative n) =
    if ltb (2 ^ 31) n || leb (2 ^ 28) n then refused Errno.einval else walks_back n
resume_request (positive n) =
    let m = if ltb n (2 ^ 31) then n else 2 ^ 32 - n in
    if leb (2 ^ 32) n || leb (2 ^ 28) m
    then refused Errno.einval
    else if ltb n (2 ^ 31)
    then goes_on m
    else walks_back m

module _ (k : Kfifo) (env : StartEnv) (between during : Cnc → Cnc) where
  -- What `resume_store` does on a request.
  unfoldable pub answer_request : Request → Cnc → Ret × Cnc
  unfolding backtrack resume
  answer_request (refused e) c = (fail e, c)
  answer_request (walks_back n) c = backtrack k env n between during c
  answer_request (goes_on n) c = resume k env n between during c

  -- `resume_store`
  unfoldable pub resume_store : Signed → Cnc → Ret × Cnc
  resume_store raw c = answer_request (resume_request raw) c
