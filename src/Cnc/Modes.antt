-- ===== src/Cnc/Modes.antt =====
-- The microstep modes and the motor locks (src/cnc.c). An axis or a mode is the number that the
-- attribute passes on; `read` is what the lines read.
pub mod RoundTrips
mod Tests
use kernel_module_glowforge.Base.{
  ℕ, ◌+◌, ◌*◌, ◌/◌, ◌%◌, Bool, true, false, not, ◌&&◌, ◌||◌, Option, none, some, ◌∷◌, ◌==◌,
  if◌then◌else◌,
}
use kernel_module_glowforge.Kernel.{Ret, ok, fail, Errno, gpio_set_value}
use kernel_module_glowforge.Pins
use kernel_module_glowforge.Cnc.State.{Cnc}

-- The bits of a microstep mode on its three pins.
abbrev pub mode_binary : ℕ → Option ℕ
mode_binary mode =
    if mode == 1
    then some 0
    else if mode == 2
    then some 1
    else if mode == 4
    then some 2
    else if mode == 8
    then some 3
    else if mode == 16
    then some 4
    else if mode == 32
    then some 5
    else none

-- The mode pins of an axis: 0 is X, 1 is Y.
pub record ModePins : Type 0 where
  pub mode0 : ℕ
  pub mode1 : ℕ
  pub mode2 : ℕ

abbrev pub mode_pins : ℕ → Option ModePins
mode_pins axis =
    if axis == 0
    then some (record { mode0 = Pins.x_mode0; mode1 = Pins.x_mode1; mode2 = Pins.x_mode2 })
    else if axis == 1
    then some (record { mode0 = Pins.y_mode0; mode1 = Pins.y_mode1; mode2 = Pins.y_mode2 })
    else none

-- `cnc_set_microstep_mode`, once both switches are done
abbrev pub set_mode_pins : Option ℕ → Option ModePins → Cnc → Ret × Cnc
set_mode_pins none pins c = (fail Errno.einval, c)
set_mode_pins (some b) none c = (fail Errno.einval, c)
set_mode_pins (some b) (some pins) c = (
  ok,
  record c {
    calls =
        gpio_set_value pins.mode2 (b / 4 % 2 * 4)
        ∷ gpio_set_value pins.mode1 (b / 2 % 2 * 2)
        ∷ gpio_set_value pins.mode0 (b % 2)
        ∷ c.calls;
  },
)

-- `cnc_set_microstep_mode`
unfoldable pub set_microstep_mode : ℕ → ℕ → Cnc → Ret × Cnc
set_microstep_mode axis mode c = set_mode_pins (mode_binary mode) (mode_pins axis) c

-- The mode that the pins read: six and seven read as the last.
abbrev pub read_mode_pins : (ℕ → ℕ) → ModePins → ℕ
read_mode_pins read pins =
    let b0 = if read pins.mode0 == 0 then 0 else 1 in
    let b1 = if read pins.mode1 == 0 then 0 else 2 in
    let b2 = if read pins.mode2 == 0 then 0 else 4 in
    let b = b0 + b1 + b2 in
    if b == 0
    then 1
    else if b == 1
    then 2
    else if b == 2
    then 4
    else if b == 3
    then 8
    else if b == 4
    then 16
    else 32

-- `cnc_get_microstep_mode`, once the first switch is done
abbrev pub read_mode : (ℕ → ℕ) → Option ModePins → Option ℕ
read_mode read none = none
read_mode read (some pins) = some (read_mode_pins read pins)

-- `cnc_get_microstep_mode`; `none` is `-EINVAL`.
unfoldable pub get_microstep_mode : (ℕ → ℕ) → ℕ → Option ℕ
get_microstep_mode read axis = read_mode read (mode_pins axis)

-- The motor locks: the bits of the attribute.
pub record MotorLock : Type 0 where
  pub lock_x : Bool
  pub lock_y1 : Bool
  pub lock_y2 : Bool
  pub lock_z : Bool

-- `cnc_set_motor_lock`: the port bits that are set, where `bit` is a pin's bit in its port.
unfoldable pub set_motor_lock : (ℕ → ℕ) → MotorLock → ℕ → Bool
set_motor_lock bit lock b =
    (lock.lock_x && (bit Pins.x_step == b))
    || (lock.lock_y1 && (bit Pins.y1_step == b))
    || (lock.lock_y2 && (bit Pins.y2_step == b))
    || (lock.lock_z && (bit Pins.z_step == b))

-- `cnc_get_motor_lock`, where `status` is what fetching the port bits reports
unfoldable pub get_motor_lock : (ℕ → ℕ) → ℕ → (ℕ → Bool) → MotorLock
get_motor_lock bit status lock_val =
    let fetched = status == 0 in
    record {
      lock_x = fetched && lock_val (bit Pins.x_step);
      lock_y1 = fetched && lock_val (bit Pins.y1_step);
      lock_y2 = fetched && lock_val (bit Pins.y2_step);
      lock_z = fetched && lock_val (bit Pins.z_step);
    }
