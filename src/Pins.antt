-- ===== src/Pins.antt =====
-- The GPIO pins of the stepper driver (src/cnc_pins.h, src/cnc_pins.c). A pin is its index in the
-- enum; the GPIO number behind an index comes from the device tree and is not modelled.
use kernel_module_glowforge.Base.{ℕ}

abbrev pub x_enable : ℕ
x_enable = 0

abbrev pub x_step : ℕ
x_step = 1

abbrev pub x_dir : ℕ
x_dir = 2

abbrev pub x_home : ℕ
x_home = 3

abbrev pub x_fault : ℕ
x_fault = 4

abbrev pub x_mode0 : ℕ
x_mode0 = 5

abbrev pub x_mode1 : ℕ
x_mode1 = 6

abbrev pub x_mode2 : ℕ
x_mode2 = 7

abbrev pub x_decay : ℕ
x_decay = 8

abbrev pub y1_enable : ℕ
y1_enable = 9

abbrev pub y1_step : ℕ
y1_step = 10

abbrev pub y1_dir : ℕ
y1_dir = 11

abbrev pub y1_home : ℕ
y1_home = 12

abbrev pub y1_fault : ℕ
y1_fault = 13

abbrev pub y2_enable : ℕ
y2_enable = 14

abbrev pub y2_step : ℕ
y2_step = 15

abbrev pub y2_dir : ℕ
y2_dir = 16

abbrev pub y2_home : ℕ
y2_home = 17

abbrev pub y2_fault : ℕ
y2_fault = 18

abbrev pub y_mode0 : ℕ
y_mode0 = 19

abbrev pub y_mode1 : ℕ
y_mode1 = 20

abbrev pub y_mode2 : ℕ
y_mode2 = 21

abbrev pub y_decay : ℕ
y_decay = 22

abbrev pub z_enable : ℕ
z_enable = 23

abbrev pub z_step : ℕ
z_step = 24

abbrev pub z_dir : ℕ
z_dir = 25

abbrev pub step_reset : ℕ
step_reset = 26

abbrev pub step_sleep : ℕ
step_sleep = 27

abbrev pub laser_on : ℕ
laser_on = 28

abbrev pub laser_on_head : ℕ
laser_on_head = 29

abbrev pub charge_pump : ℕ
charge_pump = 30

abbrev pub laser_latch_reset : ℕ
laser_latch_reset = 31

abbrev pub beam_latch_reset : ℕ
beam_latch_reset = 32

abbrev pub laser_on_readback : ℕ
laser_on_readback = 33

abbrev pub laser_pgood : ℕ
laser_pgood = 34

abbrev pub button_latch : ℕ
button_latch = 35

abbrev pub interlock_latch_reset : ℕ
interlock_latch_reset = 36

abbrev pub charge_pump_alive : ℕ
charge_pump_alive = 37

abbrev pub num_gpio_pins : ℕ
num_gpio_pins = 38
