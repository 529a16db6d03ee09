-- ===== src/Cnc/Laser.antt =====
-- The laser latch and the charge pump (src/cnc.c).
use kernel_module_glowforge.Base.{ℕ, Bool, true, false, not, ◌&&◌, ◌==◌, if◌then◌else◌}
use kernel_module_glowforge.Kernel.{
  Ret, ok, gpio_set_value, gpio_direction_output, gpio_direction_input,
}
use kernel_module_glowforge.Pins
use kernel_module_glowforge.Cnc.State.{Cnc, is_running}
use kernel_module_glowforge.Cnc.Motion.{call}
use kernel_module_glowforge.Cnc.Run.{toggle_charge_pump}

-- `cnc_set_laser_latch`
unfoldable pub set_laser_latch : ℕ → Cnc → Ret × Cnc
set_laser_latch value c =
    let d = call (gpio_set_value Pins.laser_latch_reset value) c in
    (
      ok,
      if value == 0
          then if not (is_running d.state) && not d.accelerating && not d.decelerating
            then call (gpio_direction_output Pins.laser_on 0) d
            else d
          else call (gpio_direction_input Pins.laser_on) d,
    )

-- `charge_pump_timer_cb`; the answer is whether the timer restarts.
unfoldable pub charge_pump_timer_cb : Cnc → Bool × Cnc
unfolding toggle_charge_pump
charge_pump_timer_cb c =
    if not (is_running c.state) then (false, c) else (true, toggle_charge_pump c)

-- `streaming_store`, `ignored_faults_store` (src/cnc_api.c), once the text is parsed
unfoldable pub set_streaming : Bool → Cnc → Cnc
set_streaming on c = record c { streaming = on }
