-- ===== src/Thermal/Fans.antt =====
-- The duty of a fan (src/thermal.c, with `io_pwm_set_duty_cycle` and `io_pwm_get_duty_cycle`,
-- src/io.c), and the attributes of the lines.
use kernel_module_glowforge.Base.{
  ℕ, ◌≤◌, ◌≡◌, ◌⊎◌, inl, inr, Bool, true, false, List, [], ◌∷◌, ltb, ◌==◌, ◌||◌, if◌then◌else◌,
  Bool-cases, arith,
}
use kernel_module_glowforge.Kernel.{Ret, ok, fail, Errno, is_ok}
use kernel_module_glowforge.Io.Resources.{duty_ns}
use kernel_module_glowforge.Io.Duty.{duty_ns_lem}
use kernel_module_glowforge.Thermal.{Thermal, gpio_store}

-- `struct pwm_channel`: whether it has a device, the fraction that was set, and what the device was
-- configured with.
pub record PwmChannel : Type 0 where
  pub has_device : Bool
  pub period : ℕ
  pub duty_fraction : ℕ
  pub configured : ℕ

-- `HZ_TO_PERIOD_NS (25000)`
abbrev pub fan_period_ns : ℕ
fan_period_ns = 40000

unfoldable pub io_pwm_set_duty_cycle : PwmChannel → ℕ → PwmChannel
unfolding duty_ns
io_pwm_set_duty_cycle ch duty =
    if ch.has_device
    then record ch { duty_fraction = duty; configured = duty_ns ch.period duty }
    else ch

abbrev pub io_pwm_get_duty_cycle : PwmChannel → ℕ
io_pwm_get_duty_cycle ch = ch.duty_fraction

-- The store of `DEFINE_PWM_ATTR`, of a number
unfoldable pub pwm_store : ℕ → PwmChannel → Ret × PwmChannel
pwm_store new_value ch =
    if ltb 65535 new_value
    then (fail Errno.einval, ch)
    else (ok, io_pwm_set_duty_cycle ch new_value)

-- The store of `DEFINE_GPIO_ATTR`, of the text's characters
unfoldable pub line_store : ℕ → List ℕ → Thermal → Ret × Thermal
line_store pin [] self = (fail Errno.einval, self)
line_store pin (ch ∷ rest) self =
    if ch == 48 || (ch == 49)
    then (ok, gpio_store pin (ch == 49) self)
    else (fail Errno.einval, self)

-- A fan's duty is stored where it has 16 bits, and then reads back, and the device is configured with
-- no more than its period, and the whole of it for the largest; any other is refused with nothing
-- changed. The channel has a device, and the period of a fan.
pub pwm_store_lem :
    (new_value : ℕ) (ch : PwmChannel)
    → ch.has_device ≡ true
    → ch.period ≡ fan_period_ns
    → let (ret, d) = pwm_store new_value ch in
      ((ret ≡ ok)
        × (io_pwm_get_duty_cycle d ≡ new_value)
        × (d.configured ≤ d.period)
        × (new_value ≡ 65535 → d.configured ≡ d.period))
      ⊎ ((is_ok ret ≡ false) × (d ≡ ch))
unfolding pwm_store io_pwm_set_duty_cycle
pwm_store_lem new_value ch h p = elim (Bool-cases (ltb 65535 new_value)) [
  | inl y ↦ inr (ground arith)
  | inr n ↦
      let b =
        duty_ns_lem ch.period new_value new_value (omega arith) (omega arith) (ground arith) in
      inl (ground arith)
]
