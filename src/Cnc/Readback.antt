-- ===== src/Cnc/Readback.antt =====
-- What the attributes read of the safety chain (src/cnc.c): `read` is what the lines read.
use kernel_module_glowforge.Base.{ℕ, ◌+◌, ◌/◌, ◌%◌, ◌^◌, ◌<◌, ◌≡◌, ◌==◌, if◌then◌else◌, arith}
use kernel_module_glowforge.Pins

module _ (read : ℕ → ℕ) where
  -- The level, and the level inverted
  abbrev pub get_level : ℕ → ℕ
  get_level pin = read pin

  abbrev pub get_inverted : ℕ → ℕ
  get_inverted pin = if read pin == 0 then 1 else 0

  -- `cnc_get_laser_enable`, `cnc_get_laser_on`, `cnc_get_laser_pgood`, `cnc_get_button_latch`,
  -- `cnc_get_charge_pump_alive`, `cnc_get_interlock_latch_reset`
  abbrev pub get_laser_enable : ℕ
  get_laser_enable = get_level Pins.laser_on

  abbrev pub get_laser_on : ℕ
  get_laser_on = get_inverted Pins.laser_on_readback

  abbrev pub get_laser_pgood : ℕ
  get_laser_pgood = get_level Pins.laser_pgood

  abbrev pub get_button_latch : ℕ
  get_button_latch = get_level Pins.button_latch

  abbrev pub get_charge_pump_alive : ℕ
  get_charge_pump_alive = get_inverted Pins.charge_pump_alive

  abbrev pub get_interlock_latch_reset : ℕ
  get_interlock_latch_reset = get_level Pins.interlock_latch_reset

  -- A bit of the mask, where its line is high
  abbrev pub mask_bit : ℕ → ℕ → ℕ
  mask_bit pin value = if read pin == 0 then 0 else value

  -- `cnc_get_interlock_circuit`
  unfoldable pub get_interlock_circuit : ℕ
  get_interlock_circuit =
      mask_bit Pins.laser_on_readback 1
      + mask_bit Pins.laser_on 2
      + mask_bit Pins.button_latch 4
      + mask_bit Pins.laser_latch_reset 8
      + mask_bit Pins.interlock_latch_reset 16
      + mask_bit Pins.charge_pump_alive 32

  -- A bit of the mask is set just where its line is high.
  abbrev BitIs : ℕ → ℕ → Type 0
  BitIs n pin = get_interlock_circuit / 2 ^ n % 2 ≡ (if read pin == 0 then 0 else 1)

  -- The snapshot of the safety chain is six bits, each of its own line; the two that the single
  -- attributes show inverted are not inverted in it.
  pub get_interlock_circuit_lem :
      (get_interlock_circuit < 64)
      × BitIs 0 Pins.laser_on_readback
      × BitIs 1 Pins.laser_on
      × BitIs 2 Pins.button_latch
      × BitIs 3 Pins.laser_latch_reset
      × BitIs 4 Pins.interlock_latch_reset
      × BitIs 5 Pins.charge_pump_alive
      × (get_interlock_circuit % 2 + get_laser_on ≡ 1)
      × (get_interlock_circuit / 32 + get_charge_pump_alive ≡ 1)
  unfolding get_interlock_circuit
  get_interlock_circuit_lem = ground arith
