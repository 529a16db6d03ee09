-- ===== src/Pulsedev/Modes.antt =====
-- The stores and shows that pass a number on (src/cnc_api.c): the modes, the motor locks, and what the
-- ring has room for. `sscanf` finds a number or none.
use kernel_module_glowforge.Base.{ℕ, ◌/◌, ◌%◌, Bool, Option, none, some, ◌==◌}
use kernel_module_glowforge.Kernel.{Ret, fail, Errno, of_status}
use kernel_module_glowforge.Ring.{Kfifo, Fetch}
use kernel_module_glowforge.Buffer.{get_free_space, max_backtrack_length}
use kernel_module_glowforge.Cnc.State.{Cnc}
use kernel_module_glowforge.Cnc.Modes.{MotorLock, set_microstep_mode, set_motor_lock}
use kernel_module_glowforge.Cnc.Decay.{Decays, set_decay_mode}
use kernel_module_glowforge.Pulsedev.{Parsed, bad, number}

-- `DEFINE_MODE_ATTR`, `DEFINE_DECAY_ATTR`
unfoldable pub mode_store : ℕ → Option ℕ → Cnc → Ret × Cnc
mode_store axis none c = (fail Errno.einval, c)
mode_store axis (some mode) c = set_microstep_mode axis mode c

unfoldable pub decay_store : ℕ → Option ℕ → Decays → Ret × Decays
decay_store axis none d = (fail Errno.einval, d)
decay_store axis (some mode) d = set_decay_mode axis mode d

-- The locks of a number's bits
abbrev pub locks_of : ℕ → MotorLock
locks_of n = record {
  lock_x = n % 2 == 1;
  lock_y1 = n / 2 % 2 == 1;
  lock_y2 = n / 4 % 2 == 1;
  lock_z = n / 8 % 2 == 1;
}

-- `motor_lock_store`: what it returns, and the port bits that it writes, where `status` is what
-- writing them reports.
unfoldable pub motor_lock_store : (ℕ → ℕ) → ℕ → Parsed → Ret × Option (ℕ → Bool)
motor_lock_store bit status (bad e) = (fail e, none)
motor_lock_store bit status (number n) = (of_status status, some (set_motor_lock bit (locks_of n)))

-- `free_show`, `max_backtrack_show`
unfoldable pub free_show : Kfifo → Fetch → Cnc → ℕ × Cnc
free_show k fetch c = get_free_space k fetch c

unfoldable pub max_backtrack_show : Kfifo → Fetch → Cnc → ℕ × Cnc
max_backtrack_show k fetch c = max_backtrack_length k fetch c
