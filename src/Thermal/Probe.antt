-- ===== src/Thermal/Probe.antt =====
-- The resources of the thermal driver: `thermal_probe` and `thermal_remove` (src/thermal.c).
use kernel_module_glowforge.Base.{ℕ, Bool, not, List, [], ◌∷◌, ◌==◌, if◌then◌else◌}
use kernel_module_glowforge.Kernel.{Ret, ok, fail, is_ok, of_status, Errno}
use kernel_module_glowforge.Setup.{SetupCall, acquired, released, performed, make_safe}
use kernel_module_glowforge.Thermal.{IrqAnswer, init_tachs}

abbrev pub thermal_gpios : ℕ
thermal_gpios = 0

abbrev pub fan_pwms : ℕ
fan_pwms = 1

-- The interrupts of the tachometers, which Thermal.Tachometers looks into.
abbrev pub tach_irqs : ℕ
tach_irqs = 2

abbrev pub thermal_attr_group : ℕ
thermal_attr_group = 3

abbrev pub thermal_link : ℕ
thermal_link = 4

abbrev pub dms_notifier : ℕ
dms_notifier = 5

abbrev pub heater_pwm_timer : ℕ
heater_pwm_timer = 6

pub record Answers : Type 0 where
  pub allocated : Bool
  pub gpios_status : ℕ
  pub pwms_status : ℕ
  pub tachs : List IrqAnswer
  pub group_status : ℕ
  pub link_status : ℕ

-- The labels of `thermal_probe`, each falling through to the next.
abbrev pub failed_pwm_init : List SetupCall → List SetupCall
failed_pwm_init cs = released thermal_gpios ∷ cs

abbrev pub failed_tach_init : List SetupCall → List SetupCall
failed_tach_init cs = failed_pwm_init (released fan_pwms ∷ cs)

abbrev pub failed_create_group : List SetupCall → List SetupCall
failed_create_group cs = failed_tach_init (released tach_irqs ∷ cs)

abbrev pub failed_create_link : List SetupCall → List SetupCall
failed_create_link cs = failed_create_group (released thermal_attr_group ∷ cs)

-- `thermal_probe`; `tach_ret` is what `thermal_init_tachs` returns.
unfoldable pub thermal_probe_from : Answers → Ret → Ret × List SetupCall
thermal_probe_from a tach_ret =
    let c1 = acquired thermal_gpios ∷ [] in
    let c2 = acquired fan_pwms ∷ c1 in
    let c3 = acquired tach_irqs ∷ c2 in
    let c4 = acquired thermal_attr_group ∷ c3 in
    let c5 = acquired thermal_link ∷ c4 in
    if not a.allocated
    then (fail Errno.enomem, [])
    else if not (a.gpios_status == 0)
    then (of_status a.gpios_status, [])
    else if not (a.pwms_status == 0)
    then (of_status a.pwms_status, failed_pwm_init c1)
    else if not (is_ok tach_ret)
    then (tach_ret, failed_tach_init c2)
    else if not (a.group_status == 0)
    then (of_status a.group_status, failed_create_group c3)
    else if not (a.link_status == 0)
    then (of_status a.link_status, failed_create_link c4)
    else (ok, acquired heater_pwm_timer ∷ acquired dms_notifier ∷ c5)

unfoldable pub thermal_probe : Answers → Ret × List SetupCall
unfolding thermal_probe_from
thermal_probe a = thermal_probe_from a (init_tachs a.tachs).0

-- `thermal_remove`
unfoldable pub thermal_remove : List SetupCall → List SetupCall
thermal_remove cs =
    released thermal_gpios
    ∷ released tach_irqs
    ∷ released fan_pwms
    ∷ released thermal_attr_group
    ∷ released thermal_link
    ∷ released heater_pwm_timer
    ∷ released dms_notifier
    ∷ performed make_safe
    ∷ cs
