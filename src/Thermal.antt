-- ===== src/Thermal.antt =====
-- The thermal driver (src/thermal.c): the software PWM of the water heater, the safe state, and the
-- interrupts and readings of the fan tachometers.
pub mod Heater
pub mod Tachometers
pub mod Fans
pub mod Probe
mod Tests
use kernel_module_glowforge.Base.{
  ℕ, ◌-◌, ◌*◌, ◌/◌, ◌^◌, Bool, not, ◌&&◌, ◌||◌, Option, none, some, List, [], ◌∷◌, ◌++◌, ltb, ◌==◌,
  if◌then◌else◌,
}
use kernel_module_glowforge.Kernel.{Ret, ok, fail, Errno, Call, gpio_set_value}
use kernel_module_glowforge.Io.{PinChange, change_pins}

abbrev pub pin_water_pump : ℕ
pin_water_pump = 0

abbrev pub pin_water_heater : ℕ
pin_water_heater = 1

abbrev pub pin_tec : ℕ
pin_tec = 2

abbrev pub thermal_num_gpio_pins : ℕ
thermal_num_gpio_pins = 6

abbrev pub thermal_safe_pin_changes : List PinChange
thermal_safe_pin_changes =
    record { pid = pin_water_heater; value = 0 } ∷ record { pid = pin_tec; value = 0 } ∷ []

-- `struct thermal`: the duty of the heater, and the calls made, newest first.
pub record Thermal : Type 0 where
  pub heater_duty_fraction : ℕ  -- u16
  pub calls : List Call

-- `thermal_make_safe`, which the dead man's switch calls
unfoldable pub make_safe : Thermal → Thermal
make_safe self = record {
  heater_duty_fraction = 0;
  calls = change_pins thermal_num_gpio_pins thermal_safe_pin_changes self.calls;
}

abbrev pub heater_pwm_period : ℕ
heater_pwm_period = 10000000

abbrev pub heater_duty_max : ℕ
heater_duty_max = 2 ^ 16 - 1

-- `heater_pwm_store`, of a number
unfoldable pub heater_pwm_store : ℕ → Thermal → Ret × Thermal
heater_pwm_store new_value self =
    if ltb heater_duty_max new_value
    then (fail Errno.einval, self)
    else (ok, record self { heater_duty_fraction = new_value })

-- The stores of `water_pump_on` and `tec_on`, of a `0` or a `1`
unfoldable pub gpio_store : ℕ → Bool → Thermal → Thermal
gpio_store pin on self = record self {
  calls = gpio_set_value pin (if on then 1 else 0) ∷ self.calls;
}

-- `duty_to_ktime`
unfoldable pub duty_to_ktime : ℕ → ℕ
duty_to_ktime duty_fraction =
    if (duty_fraction == 0) || (duty_fraction == heater_duty_max)
    then heater_pwm_period
    else heater_pwm_period * duty_fraction / 2 ^ 16

-- `heater_pwm_timer_cb`, where the heater's line reads `line`: the time until the next callback.
unfoldable pub heater_pwm_timer_cb : ℕ → Thermal → ℕ × Thermal
unfolding duty_to_ktime
heater_pwm_timer_cb line self =
    let d = self.heater_duty_fraction in
    let steady = (d == 0) || (d == heater_duty_max) in
    let high = if steady then not (d == 0) else line == 0 in
    let time = if steady || high then d else heater_duty_max - d in
    (
      duty_to_ktime time,
      record self { calls = gpio_set_value pin_water_heater (if high then 1 else 0) ∷ self.calls },
    )

-- A tachometer's two times, in ns, which its interrupt handler and its reader share.
pub record Tach : Type 0 where
  pub last_period : ℕ
  pub last_edge : ℕ

abbrev pub maximum_tach_period_ns : ℕ
maximum_tach_period_ns = 1000000000 / 10

-- `tach_irq_handler`, at the time `now`
unfoldable pub tach_irq_handler : ℕ → Tach → Tach
tach_irq_handler now tach = record { last_period = now - tach.last_edge; last_edge = now }

-- `get_tach_value_ns`
unfoldable pub get_tach_value_ns : ℕ → Tach → ℕ
get_tach_value_ns now tach =
    if ltb tach.last_period maximum_tach_period_ns
      && ltb (now - tach.last_edge) maximum_tach_period_ns
    then tach.last_period
    else 0

-- The calls that acquire and give back the interrupts of the tachometers.
pub data IrqCall : Type 0 where
  request_irq free_irq : ℕ → IrqCall

-- The channels' interrupt numbers in order, `none` for -1.
pub record Tachs : Type 0 where
  pub irq_nums : List (Option ℕ)
  pub irq_calls : List IrqCall

-- `thermal_teardown_tachs`
unfoldable pub teardown_calls : List (Option ℕ) → List IrqCall → List IrqCall
teardown_calls [] older = older
teardown_calls (none ∷ irqs) older = teardown_calls irqs older
teardown_calls (some n ∷ irqs) older = teardown_calls irqs (free_irq n ∷ older)

unfoldable pub forgotten : List (Option ℕ) → List (Option ℕ)
forgotten [] = []
forgotten (_ ∷ irqs) = none ∷ forgotten irqs

unfoldable pub teardown_tachs : Tachs → Tachs
unfolding teardown_calls forgotten
teardown_tachs t = record {
  irq_nums = forgotten t.irq_nums;
  irq_calls = teardown_calls t.irq_nums t.irq_calls;
}

-- What the kernel answers for one channel: no interrupt, a refused request, or a granted one.
pub data IrqAnswer : Type 0 where
  no_irq : IrqAnswer
  irq_refused irq_granted : ℕ → IrqAnswer

-- The loop of `thermal_init_tachs`: `t` has the channels done so far; those past them hold -1, and
-- the teardown skips them.
unfoldable pub init_from : List IrqAnswer → Tachs → Ret × Tachs
unfolding teardown_tachs
init_from [] t = (ok, t)
init_from (no_irq ∷ answers) t = (fail Errno.enoent, teardown_tachs t)
init_from (irq_refused n ∷ answers) t = (fail Errno.enoent, teardown_tachs t)
init_from (irq_granted n ∷ answers) t =
    init_from answers
      (record { irq_nums = t.irq_nums ++ (some n ∷ []); irq_calls = request_irq n ∷ t.irq_calls })

-- `thermal_init_tachs`, with an answer for each channel
unfoldable pub init_tachs : List IrqAnswer → Ret × Tachs
unfolding init_from
init_tachs answers = init_from answers (record { irq_nums = []; irq_calls = [] })
