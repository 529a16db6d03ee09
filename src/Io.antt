-- ===== src/Io.antt =====
-- Sets of pin changes and their application (src/io.h, src/io.c), and the sets of the stepper driver
-- (src/cnc_pins.c).
pub mod Resources
pub mod Acquired
pub mod Duty
pub mod Address
mod Tests
mod Lines
pub use Lines.*
use kernel_module_glowforge.Base.{ℕ, List, [], ◌∷◌, ltb, ◌==◌, if◌then◌else◌}
use kernel_module_glowforge.Kernel.{Call, gpio_direction_output, gpio_direction_input}
use kernel_module_glowforge.Pins

-- A level, or `hi_z` for high impedance.
pub record PinChange : Type 0 where
  pub pid : ℕ
  pub value : ℕ

abbrev pub hi_z : ℕ
hi_z = 255

abbrev pub pin_call : PinChange → Call
pin_call c =
    if c.value == hi_z then gpio_direction_input c.pid else gpio_direction_output c.pid c.value

-- The calls of `io_change_pins` on top of those made before. A pin out of range is only logged.
abbrev pub change_pins : ℕ → List PinChange → List Call → List Call
change_pins ngpios [] calls = calls
change_pins ngpios (c ∷ cs) calls =
    change_pins ngpios cs (if ltb c.pid ngpios then pin_call c ∷ calls else calls)

abbrev pub startup_pin_changes : List PinChange
startup_pin_changes =
    record { pid = Pins.step_reset; value = 1 }
    ∷ record { pid = Pins.step_sleep; value = 1 }
    ∷ record { pid = Pins.x_enable; value = 0 }
    ∷ record { pid = Pins.y1_enable; value = 0 }
    ∷ record { pid = Pins.y2_enable; value = 0 }
    ∷ record { pid = Pins.z_enable; value = 1 }
    ∷ record { pid = Pins.charge_pump; value = 0 }
    ∷ record { pid = Pins.x_step; value = 0 }
    ∷ record { pid = Pins.x_dir; value = 0 }
    ∷ record { pid = Pins.y1_step; value = 0 }
    ∷ record { pid = Pins.y1_dir; value = 0 }
    ∷ record { pid = Pins.y2_step; value = 0 }
    ∷ record { pid = Pins.y2_dir; value = 0 }
    ∷ record { pid = Pins.z_step; value = 0 }
    ∷ record { pid = Pins.z_dir; value = 0 }
    ∷ []

abbrev pub stop_pin_changes : List PinChange
stop_pin_changes =
    record { pid = Pins.laser_on; value = hi_z }
    ∷ record { pid = Pins.laser_on_head; value = 0 }
    ∷ record { pid = Pins.charge_pump; value = 0 }
    ∷ record { pid = Pins.x_step; value = 0 }
    ∷ record { pid = Pins.x_dir; value = 0 }
    ∷ record { pid = Pins.y1_step; value = 0 }
    ∷ record { pid = Pins.y1_dir; value = 0 }
    ∷ record { pid = Pins.y2_step; value = 0 }
    ∷ record { pid = Pins.y2_dir; value = 0 }
    ∷ record { pid = Pins.z_step; value = 0 }
    ∷ record { pid = Pins.z_dir; value = 0 }
    ∷ []

abbrev pub shutdown_pin_changes : List PinChange
shutdown_pin_changes =
    record { pid = Pins.step_reset; value = 0 }
    ∷ record { pid = Pins.step_sleep; value = 0 }
    ∷ record { pid = Pins.laser_latch_reset; value = 1 }
    ∷ record { pid = Pins.x_enable; value = 1 }
    ∷ record { pid = Pins.y1_enable; value = 1 }
    ∷ record { pid = Pins.y2_enable; value = 1 }
    ∷ record { pid = Pins.z_enable; value = 0 }
    ∷ record { pid = Pins.laser_on; value = hi_z }
    ∷ record { pid = Pins.laser_on_head; value = 0 }
    ∷ record { pid = Pins.charge_pump; value = 0 }
    ∷ record { pid = Pins.x_step; value = 0 }
    ∷ record { pid = Pins.x_dir; value = 0 }
    ∷ record { pid = Pins.y1_step; value = 0 }
    ∷ record { pid = Pins.y1_dir; value = 0 }
    ∷ record { pid = Pins.y2_step; value = 0 }
    ∷ record { pid = Pins.y2_dir; value = 0 }
    ∷ record { pid = Pins.z_step; value = 0 }
    ∷ record { pid = Pins.z_dir; value = 0 }
    ∷ []
