-- ===== src/Cnc/Outputs.antt =====
-- The output lines after a stop, for every list of calls made before.
use kernel_module_glowforge.Base.{◌≡◌, Bool, some, List, arith}
use kernel_module_glowforge.Kernel.{Call}
use kernel_module_glowforge.Pins
use kernel_module_glowforge.Io.{input, output, drive}
use kernel_module_glowforge.Cnc.State.{Cnc, CncState, disabled}
use kernel_module_glowforge.Cnc.Motion.{driver_stop}
use kernel_module_glowforge.Cnc.Fault.{panic_handler}

-- Nothing moves and nothing fires: the laser-enable line is high impedance, and the head's laser
-- signal, the charge pump and all step and direction lines are low.
pub record IsStill (calls : List Call) : Type 0 where
  pub laser_on : drive Pins.laser_on calls ≡ some input
  pub laser_on_head : drive Pins.laser_on_head calls ≡ some (output 0)
  pub charge_pump : drive Pins.charge_pump calls ≡ some (output 0)
  pub x_step : drive Pins.x_step calls ≡ some (output 0)
  pub x_dir : drive Pins.x_dir calls ≡ some (output 0)
  pub y1_step : drive Pins.y1_step calls ≡ some (output 0)
  pub y1_dir : drive Pins.y1_dir calls ≡ some (output 0)
  pub y2_step : drive Pins.y2_step calls ≡ some (output 0)
  pub y2_dir : drive Pins.y2_dir calls ≡ some (output 0)
  pub z_step : drive Pins.z_step calls ≡ some (output 0)
  pub z_dir : drive Pins.z_dir calls ≡ some (output 0)

-- The steppers are off and the laser latch is locked.
pub record IsOff (calls : List Call) : Type 0 where
  pub step_reset : drive Pins.step_reset calls ≡ some (output 0)
  pub step_sleep : drive Pins.step_sleep calls ≡ some (output 0)
  pub latch : drive Pins.laser_latch_reset calls ≡ some (output 1)
  pub x_enable : drive Pins.x_enable calls ≡ some (output 1)
  pub y1_enable : drive Pins.y1_enable calls ≡ some (output 1)
  pub y2_enable : drive Pins.y2_enable calls ≡ some (output 1)
  pub z_enable : drive Pins.z_enable calls ≡ some (output 0)

-- A stop into any state leaves the lines still, whatever was done before, and a stop into the
-- disabled state also leaves the steppers off and the laser latch locked. So does a panic.
pub stop-IsStill :
    (softirq : Bool) (s : CncState) (c : Cnc)
    → IsStill (driver_stop softirq s c).calls
      × (s ≡ disabled → IsOff (driver_stop softirq s c).calls)
      × IsStill (panic_handler c).calls
      × IsOff (panic_handler c).calls
unfolding driver_stop panic_handler
stop-IsStill softirq disabled c = ground arith
stop-IsStill softirq _ c = ground arith
