-- ===== src/Thermal/Heater.antt =====
-- The heater: the safe state, and one period of the software PWM.
use kernel_module_glowforge.Base.{ℕ, ◌+◌, ◌*◌, ◌≤◌, ◌<◌, ◌≡◌, some, List, [], ◌∷◌, arith}
use kernel_module_glowforge.Io.{level}
use kernel_module_glowforge.Thermal.{
  Thermal, make_safe, heater_pwm_timer_cb, heater_pwm_period, heater_duty_max, pin_water_heater,
  pin_tec,
}

-- The timer's callbacks, each with what the heater's line reads, oldest first.
unfoldable pub callbacks : List ℕ → Thermal → Thermal
callbacks [] self = self
callbacks (line ∷ lines) self = callbacks lines (heater_pwm_timer_cb line self).1

-- The heater has no duty, and its line and that of the thermoelectric cooler are low.
pub record IsSafe (self : Thermal) : Type 0 where
  pub no_duty : self.heater_duty_fraction ≡ 0
  pub heater_low : level pin_water_heater self.calls ≡ some 0
  pub tec_low : level pin_tec self.calls ≡ some 0

cb-IsSafe : (line : ℕ) (self : Thermal) → IsSafe self → IsSafe (heater_pwm_timer_cb line self).1
unfolding heater_pwm_timer_cb
cb-IsSafe line self h = ground arith

pub callbacks-IsSafe :
    (lines : List ℕ) (self : Thermal) → IsSafe self → IsSafe (callbacks lines self)
unfolding callbacks
callbacks-IsSafe [] self h = h
callbacks-IsSafe (line ∷ lines) self h = callbacks-IsSafe lines _ (cb-IsSafe line self h)

-- Once made safe the heater and the cooler are off and stay off: no callback of the running timer
-- switches the heater on again, whatever the line reads.
pub make_safe-IsSafe : (lines : List ℕ) (self : Thermal) → IsSafe (callbacks lines (make_safe self))
unfolding make_safe
make_safe-IsSafe lines self = callbacks-IsSafe lines _ (ground arith)

-- Between its extremes a duty of d gives one period of two callbacks: from a low line the heater is
-- high for d / 65536 of the period, rounded down to a nanosecond, and from a high line it is low
-- for the rest, at most 154 ns short of the whole period.
pub heater_period :
    (self : Thermal)
    → 0 < self.heater_duty_fraction
    → self.heater_duty_fraction < heater_duty_max
    → let d = self.heater_duty_fraction in
      let (on_time, up) = heater_pwm_timer_cb 0 self in
      let (off_time, down) = heater_pwm_timer_cb 1 up in
      (level pin_water_heater up.calls ≡ some 1)
      × (level pin_water_heater down.calls ≡ some 0)
      × (on_time * 65536 ≤ heater_pwm_period * d)
      × (heater_pwm_period * d < (on_time + 1) * 65536)
      × (on_time + off_time ≤ heater_pwm_period)
      × (heater_pwm_period ≤ on_time + off_time + 154)
unfolding heater_pwm_timer_cb
heater_period self low high = ground arith
