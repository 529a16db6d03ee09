-- ===== src/Thermal/Tests.antt =====
-- The thermal driver at concrete inputs.
use kernel_module_glowforge.Base.{
  ◌+◌, ◌*◌, ◌≤◌, ◌<◌, ◌≡◌, ◌⊎◌, refl, false, some, List, [], ◌∷◌, arith,
}
use kernel_module_glowforge.Kernel.{ok, is_ok}
use kernel_module_glowforge.Io.{level}
use kernel_module_glowforge.Thermal.{
  Thermal, make_safe, heater_pwm_timer_cb, heater_pwm_period, pin_water_heater, IrqAnswer,
  irq_granted, no_irq, init_tachs, teardown_tachs, Tach, tach_irq_handler, get_tach_value_ns,
  maximum_tach_period_ns,
}
use kernel_module_glowforge.Thermal.Heater.{callbacks, IsSafe, make_safe-IsSafe, heater_period}
use kernel_module_glowforge.Thermal.Tachometers.{Balanced, Released, init_tachs_lem, tach_reading}

-- A quarter of the full heat.
abbrev warming : Thermal
warming = record { heater_duty_fraction = 16384; calls = [] }

quarter_on : (heater_pwm_timer_cb 0 warming).0 ≡ 2500000
unfolding heater_pwm_timer_cb
quarter_on = refl

warming-IsSafe : IsSafe (callbacks (1 ∷ 0 ∷ []) (make_safe warming))
warming-IsSafe = make_safe-IsSafe (1 ∷ 0 ∷ []) warming

half_duty_period :
    let (on_time, up) = heater_pwm_timer_cb 0 warming in
    let (off_time, down) = heater_pwm_timer_cb 1 up in
    (level pin_water_heater up.calls ≡ some 1)
    × (level pin_water_heater down.calls ≡ some 0)
    × (on_time * 65536 ≤ heater_pwm_period * 16384)
    × (heater_pwm_period * 16384 < (on_time + 1) * 65536)
    × (on_time + off_time ≤ heater_pwm_period)
    × (heater_pwm_period ≤ on_time + off_time + 154)
half_duty_period = heater_period warming (ground arith) (ground arith)

-- Two channels are granted, the third has no interrupt.
abbrev two_granted : List IrqAnswer
two_granted = irq_granted 40 ∷ irq_granted 41 ∷ no_irq ∷ []

init_tachs_lem_example :
    let (r, t) = init_tachs two_granted in
    (((r ≡ ok) × Balanced 41 t) ⊎ ((is_ok r ≡ false) × Released 41 t))
    × Released 41 (teardown_tachs t)
    × ((teardown_tachs (teardown_tachs t)).irq_calls ≡ (teardown_tachs t).irq_calls)
init_tachs_lem_example = init_tachs_lem two_granted 41

abbrev spinning : Tach
spinning = record { last_period = 0; last_edge = 1000 }

reading_at_speed :
    let value = get_tach_value_ns 25001500 (tach_irq_handler 25001000 spinning) in
    (25001500 < 25001000 + maximum_tach_period_ns
      → 25001000 < 1000 + maximum_tach_period_ns
      → 1000 + value ≡ 25001000)
    × (25001000 + maximum_tach_period_ns ≤ 25001500 → value ≡ 0)
    × (1000 + maximum_tach_period_ns ≤ 25001000 → value ≡ 0)
    × (value < maximum_tach_period_ns)
reading_at_speed = tach_reading 1000 25001000 25001500 spinning refl (ground arith) (ground arith)
