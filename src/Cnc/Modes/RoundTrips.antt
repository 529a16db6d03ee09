-- ===== src/Cnc/Modes/RoundTrips.antt =====
-- Setting and reading back the microstep modes and the motor locks.
use kernel_module_glowforge.Base.{
  ℕ, ◌≡◌, ◌≢◌, ◌⊎◌, false, some, ◌∷◌, ◌*◌, ◌/◌, ◌%◌, none, Option, List, inl, inr, ap, arith, refl,
}
use kernel_module_glowforge.Kernel.{ok, Call, gpio_set_value, is_ok}
use kernel_module_glowforge.Pins
use kernel_module_glowforge.Io.{level}
use kernel_module_glowforge.Cnc.State.{Cnc}
use kernel_module_glowforge.Cnc.Modes.{
  ModePins, mode_binary, mode_pins, read_mode_pins, read_mode, set_mode_pins, set_microstep_mode,
  get_microstep_mode, MotorLock, set_motor_lock, get_motor_lock,
}

-- A line reads low exactly if the newest level that it was given is 0.
pub record ReadsBack (calls : List Call) (read : ℕ → ℕ) : Type 0 where
  pub low : (p : ℕ) → level p calls ≡ some 0 → read p ≡ 0
  pub high : (p v : ℕ) → level p calls ≡ some v → v ≢ 0 → read p ≢ 0

-- The pins of an axis that were set to the bits of a mode read as that mode.
pins-mode :
    (pins : ModePins) (b mode : ℕ) (calls : List Call) (read : ℕ → ℕ)
    → pins.mode0 ≢ pins.mode1
    → pins.mode0 ≢ pins.mode2
    → pins.mode1 ≢ pins.mode2
    → mode_binary mode ≡ some b
    → ReadsBack
        (gpio_set_value pins.mode2 (b / 4 % 2 * 4)
          ∷ gpio_set_value pins.mode1 (b / 2 % 2 * 2)
          ∷ gpio_set_value pins.mode0 (b % 2)
          ∷ calls)
        read
    → read_mode_pins read pins ≡ mode
pins-mode pins b mode calls read d01 d02 d12 e h =
    let l0 = h.low pins.mode0 in
    let l1 = h.low pins.mode1 in
    let l2 = h.low pins.mode2 in
    let h0 = h.high pins.mode0 (b % 2) in
    let h1 = h.high pins.mode1 (b / 2 % 2 * 2) in
    let h2 = h.high pins.mode2 (b / 4 % 2 * 4) in ground arith

-- The pins of an axis are three.
pins-differ :
    (axis : ℕ) (pins : ModePins)
    → mode_pins axis ≡ some pins
    → (pins.mode0 ≢ pins.mode1) × (pins.mode0 ≢ pins.mode2) × (pins.mode1 ≢ pins.mode2)
pins-differ axis pins e = ground arith

set-read_mode :
    (axis mode : ℕ) (bits : Option ℕ) (pins : Option ModePins) (c : Cnc) (read : ℕ → ℕ)
    → mode_binary mode ≡ bits
    → mode_pins axis ≡ pins
    → ReadsBack (set_mode_pins bits pins c).1.calls read
    → (((set_mode_pins bits pins c).0 ≡ ok) × (read_mode read pins ≡ some mode))
      ⊎ ((is_ok (set_mode_pins bits pins c).0 ≡ false) × ((set_mode_pins bits pins c).1 ≡ c))
set-read_mode axis mode none pins c read e f h = inr (refl, refl)
set-read_mode axis mode (some b) none c read e f h = inr (refl, refl)
set-read_mode axis mode (some b) (some pins) c read e f h =
    let d = pins-differ axis pins f in
    inl (refl, ap some (pins-mode pins b mode c.calls read d.0 d.1 d.2 e h))

-- A microstep mode that is accepted reads back on its axis, once the lines read as they were set;
-- one that is refused, or whose axis is, makes no call.
pub set-get_microstep_mode :
    (axis mode : ℕ) (c : Cnc) (read : ℕ → ℕ)
    → ReadsBack (set_microstep_mode axis mode c).1.calls read
    → (((set_microstep_mode axis mode c).0 ≡ ok) × (get_microstep_mode read axis ≡ some mode))
      ⊎ ((is_ok (set_microstep_mode axis mode c).0 ≡ false)
          × ((set_microstep_mode axis mode c).1 ≡ c))
unfolding set_microstep_mode get_microstep_mode
set-get_microstep_mode axis mode c read h =
    set-read_mode axis mode (mode_binary mode) (mode_pins axis) c read refl refl h

-- The motor locks read back, where the four step pins have different bits of the port; where the
-- port bits cannot be fetched, no lock is reported.
pub set-get_motor_lock :
    (bit : ℕ → ℕ) (status : ℕ) (lock : MotorLock)
    → bit Pins.x_step ≢ bit Pins.y1_step
    → bit Pins.x_step ≢ bit Pins.y2_step
    → bit Pins.x_step ≢ bit Pins.z_step
    → bit Pins.y1_step ≢ bit Pins.y2_step
    → bit Pins.y1_step ≢ bit Pins.z_step
    → bit Pins.y2_step ≢ bit Pins.z_step
    → (status ≡ 0 → get_motor_lock bit status (set_motor_lock bit lock) ≡ lock)
      × (status ≢ 0
          → get_motor_lock bit status (set_motor_lock bit lock)
            ≡ record { lock_x = false; lock_y1 = false; lock_y2 = false; lock_z = false })
unfolding get_motor_lock set_motor_lock
set-get_motor_lock bit status lock a b c d e f = ground arith
