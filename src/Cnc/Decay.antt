-- ===== src/Cnc/Decay.antt =====
-- The decay modes of the X and Y drivers (src/cnc.c). An axis or a mode is the number that the
-- attribute passes on.
use kernel_module_glowforge.Base.{ℕ, Option, none, some, leb, ◌==◌, if◌then◌else◌}
use kernel_module_glowforge.Kernel.{
  Ret, ok, fail, Errno, Call, gpio_direction_output, gpio_direction_input,
}
use kernel_module_glowforge.Pins
use kernel_module_glowforge.Ring.{Ring}
use kernel_module_glowforge.Cnc.State.{Cnc, Faults}
use kernel_module_glowforge.Cnc.Motion.{call}
use kernel_module_glowforge.Cnc.Fault.{probe}

abbrev pub num_axes : ℕ
num_axes = 2

abbrev pub mode_decay_slow : ℕ
mode_decay_slow = 0

abbrev pub mode_decay_mixed : ℕ
mode_decay_mixed = 1

abbrev pub mode_decay_fast : ℕ
mode_decay_fast = 2

-- The driver with `decay_mode`, by the axis.
pub record Decays : Type 0 where
  pub decay_mode : ℕ → ℕ
  pub cnc : Cnc

abbrev pub decay_pin : ℕ → Option ℕ
decay_pin axis =
    if axis == 0 then some Pins.x_decay else if axis == 1 then some Pins.y_decay else none

-- What a mode does to the pin.
abbrev pub decay_call : ℕ → ℕ → Option Call
decay_call pin mode =
    if mode == mode_decay_slow
    then some (gpio_direction_output pin 0)
    else if mode == mode_decay_mixed
    then some (gpio_direction_input pin)
    else if mode == mode_decay_fast
    then some (gpio_direction_output pin 1)
    else none

-- `cnc_set_decay_mode`
abbrev pub set_decay_pin : Option ℕ → ℕ → ℕ → Decays → Ret × Decays
set_decay_pin none axis mode d = (fail Errno.einval, d)
set_decay_pin (some pin) axis mode d = elim (decay_call pin mode) [
  | none ↦ (fail Errno.einval, d)
  | some k ↦ (
    ok,
    record { decay_mode = λ a. if a == axis then mode else d.decay_mode a; cnc = call k d.cnc },
  )
]

unfoldable pub set_decay_mode : ℕ → ℕ → Decays → Ret × Decays
set_decay_mode axis mode d = set_decay_pin (decay_pin axis) axis mode d

-- `cnc_get_decay_mode`; `none` is `-EINVAL`.
unfoldable pub get_decay_mode : Decays → ℕ → Option ℕ
get_decay_mode d axis = if leb num_axes axis then none else some (d.decay_mode axis)

-- `cnc_probe` seeds the modes of the two axes.
unfoldable pub probe_decays : Faults → Ring → Decays
probe_decays live ring = record { decay_mode = λ a. mode_decay_mixed; cnc = probe live ring }
