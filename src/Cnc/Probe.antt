-- ===== src/Cnc/Probe.antt =====
-- The resources of the stepper driver: `cnc_probe`, its unwinding, and `cnc_remove` (src/cnc.c). The
-- state that the probe sets up is in Cnc.Fault.
pub mod Unwinding
use kernel_module_glowforge.Base.{
  ℕ, ◌+◌, Bool, true, false, not, ◌&&◌, ◌||◌, List, [], ◌∷◌, ltb, leb, ◌==◌, if◌then◌else◌,
}
use kernel_module_glowforge.Kernel.{Ret, ok, fail, is_ok, of_status, Errno}
use kernel_module_glowforge.Setup.{
  SetupCall, acquired, released, performed, attach_pool, release_pool, epit_stop, set_callback,
  clear_callback, tasklet_kill, power_off, cancel_timers,
}

abbrev pub mailbox : ℕ
mailbox = 0

abbrev pub pulse_ring : ℕ
pulse_ring = 1

abbrev pub gpio_pins : ℕ
gpio_pins = 2

abbrev pub laser_pwm : ℕ
laser_pwm = 3

abbrev pub sdma_channel : ℕ
sdma_channel = 4

abbrev pub attr_group : ℕ
attr_group = 5

abbrev pub state_attr_node : ℕ
state_attr_node = 6

abbrev pub sysfs_link : ℕ
sysfs_link = 7

abbrev pub interlock_handler : ℕ
interlock_handler = 8

abbrev pub pulsedev : ℕ
pulsedev = 9

abbrev pub panic_notifier : ℕ
panic_notifier = 10

abbrev pub laser_sample_timer : ℕ
laser_sample_timer = 11

-- The interrupts of the fault signals 0, 1 and 2.
abbrev pub stepper_fault_irq : ℕ → ℕ
stepper_fault_irq i = 12 + i

-- What the kernel answers to `cnc_probe`: statuses are 0 for success.
pub record Answers : Type 0 where
  pub mailbox_allocated : Bool
  pub ring_allocated : Bool
  pub kfifo_status : ℕ
  pub gpios_status : ℕ
  pub pwms_status : ℕ
  pub epit_found : Bool
  pub epit_status : ℕ
  pub epit_rate : ℕ
  pub has_sdma_params : Bool
  pub sdma_ch_num : ℕ
  pub sdma_found : Bool
  pub channel_found : Bool
  pub script_status : ℕ
  pub regulator_status : ℕ
  pub irq_lookups : ℕ  -- the status of looking the three interrupts up
  pub irq_status_x : ℕ
  pub irq_status_y1 : ℕ
  pub irq_status_y2 : ℕ
  pub group_status : ℕ
  pub dirent_found : Bool
  pub link_status : ℕ
  pub handler_status : ℕ
  pub misc_status : ℕ

-- The labels of `cnc_probe`, each falling through to the next. `failed_sdma_init` is also
-- `failed_load_sdma_script` and `failed_regulator_get`.
abbrev pub failed_buffer_init : List SetupCall → List SetupCall
failed_buffer_init cs = released mailbox ∷ performed release_pool ∷ cs

abbrev pub failed_io_init : List SetupCall → List SetupCall
failed_io_init cs = failed_buffer_init (released pulse_ring ∷ cs)

abbrev pub failed_pwm_init : List SetupCall → List SetupCall
failed_pwm_init cs = failed_io_init (released gpio_pins ∷ cs)

abbrev pub failed_epit_init : List SetupCall → List SetupCall
failed_epit_init cs = failed_pwm_init (released laser_pwm ∷ cs)

abbrev pub failed_sdma_init : Bool → List SetupCall → List SetupCall
failed_sdma_init has_channel cs = failed_epit_init (
    performed epit_stop
    ∷ (if has_channel then released sdma_channel ∷ performed clear_callback ∷ cs else cs))

abbrev pub failed_register_fault_irqs : List SetupCall → List SetupCall
failed_register_fault_irqs cs = failed_sdma_init true (performed tasklet_kill ∷ cs)

-- `cnc_free_fault_irqs`, where all three are registered
abbrev pub free_fault_irqs : List SetupCall → List SetupCall
free_fault_irqs cs =
    released (stepper_fault_irq 2)
    ∷ released (stepper_fault_irq 1)
    ∷ released (stepper_fault_irq 0)
    ∷ cs

abbrev pub failed_create_group : List SetupCall → List SetupCall
failed_create_group cs = failed_register_fault_irqs (free_fault_irqs cs)

abbrev pub failed_get_dirent : List SetupCall → List SetupCall
failed_get_dirent cs = failed_create_group (released attr_group ∷ cs)

abbrev pub failed_create_link : List SetupCall → List SetupCall
failed_create_link cs = failed_get_dirent (released state_attr_node ∷ cs)

abbrev pub failed_interlock_register : List SetupCall → List SetupCall
failed_interlock_register cs = failed_create_link (released sysfs_link ∷ cs)

abbrev pub failed_pulsedev_register : List SetupCall → List SetupCall
failed_pulsedev_register cs = failed_interlock_register (released interlock_handler ∷ cs)

-- `cnc_probe` up to the SDMA script; the ring stays allocated where its kfifo cannot be set up.
unfoldable pub probe_hardware : Answers → Ret × List SetupCall
probe_hardware a =
    let c1 = performed attach_pool ∷ acquired mailbox ∷ [] in
    let c2 = acquired pulse_ring ∷ c1 in
    let c3 = acquired gpio_pins ∷ c2 in
    let c4 = acquired laser_pwm ∷ c3 in
    let c5 = acquired sdma_channel ∷ c4 in
    if not a.mailbox_allocated
    then (fail Errno.enomem, [])
    else if not a.ring_allocated
    then (fail Errno.enomem, failed_buffer_init c1)
    else if not (a.kfifo_status == 0)
    then (of_status a.kfifo_status, failed_buffer_init c2)
    else if not (a.gpios_status == 0)
    then (of_status a.gpios_status, failed_io_init c2)
    else if not (a.pwms_status == 0)
    then (of_status a.pwms_status, failed_pwm_init c3)
    else if not a.epit_found
    then (fail Errno.enodev, failed_epit_init c4)
    else if not (a.epit_status == 0)
    then (of_status a.epit_status, failed_epit_init c4)
    else if a.epit_rate == 0
    then (fail Errno.enodev, failed_epit_init c4)
    else if not a.has_sdma_params
    then (fail Errno.enodev, failed_sdma_init false c4)
    else if (a.sdma_ch_num == 0) || leb 32 a.sdma_ch_num
    then (fail Errno.einval, failed_sdma_init false c4)
    else if not a.sdma_found
    then (fail Errno.enodev, failed_sdma_init false c4)
    else if not a.channel_found
    then (fail Errno.enodev, failed_sdma_init false c4)
    else if not (a.script_status == 0)
    then (of_status a.script_status, failed_sdma_init true c5)
    else (ok, performed set_callback ∷ c5)

-- `cnc_register_fault_irqs`: the requests, in order; one that fails leaves those before it.
unfoldable pub register_fault_irqs : Answers → List SetupCall → Ret × List SetupCall
register_fault_irqs a cs =
    let c1 = acquired (stepper_fault_irq 0) ∷ cs in
    let c2 = acquired (stepper_fault_irq 1) ∷ c1 in
    if not (a.irq_lookups == 0)
    then (of_status a.irq_lookups, cs)
    else if not (a.irq_status_x == 0)
    then (of_status a.irq_status_x, cs)
    else if not (a.irq_status_y1 == 0)
    then (of_status a.irq_status_y1, c1)
    else if not (a.irq_status_y2 == 0)
    then (of_status a.irq_status_y2, c2)
    else (ok, acquired (stepper_fault_irq 2) ∷ c2)

-- `cnc_probe` from the supply on.
unfoldable pub probe_surfaces : Answers → List SetupCall → Ret × List SetupCall
unfolding register_fault_irqs
probe_surfaces a cs =
    let (irqs, c1) = register_fault_irqs a cs in
    let c2 = acquired attr_group ∷ c1 in
    let c3 = acquired state_attr_node ∷ c2 in
    let c4 = acquired sysfs_link ∷ c3 in
    let c5 = acquired interlock_handler ∷ c4 in
    if not (a.regulator_status == 0)
    then (of_status a.regulator_status, failed_sdma_init true cs)
    else if not (is_ok irqs)
    then (irqs, failed_register_fault_irqs c1)
    else if not (a.group_status == 0)
    then (of_status a.group_status, failed_create_group c1)
    else if not a.dirent_found
    then (fail Errno.enodev, failed_get_dirent c2)
    else if not (a.link_status == 0)
    then (of_status a.link_status, failed_create_link c3)
    else if not (a.handler_status == 0)
    then (of_status a.handler_status, failed_interlock_register c4)
    else if not (a.misc_status == 0)
    then (of_status a.misc_status, failed_pulsedev_register c5)
    else (ok, acquired laser_sample_timer ∷ acquired panic_notifier ∷ acquired pulsedev ∷ c5)

-- `cnc_probe`
unfoldable pub cnc_probe : Answers → Ret × List SetupCall
unfolding probe_hardware probe_surfaces
cnc_probe a = let (r, cs) = probe_hardware a in if is_ok r then probe_surfaces a cs else (r, cs)

-- `cnc_remove`
unfoldable pub cnc_remove : List SetupCall → List SetupCall
cnc_remove cs =
    released sdma_channel
    ∷ performed tasklet_kill
    ∷ released mailbox
    ∷ performed release_pool
    ∷ released pulse_ring
    ∷ released gpio_pins
    ∷ performed power_off
    ∷ released laser_pwm
    ∷ released panic_notifier
    ∷ released laser_sample_timer
    ∷ performed cancel_timers
    ∷ performed clear_callback
    ∷ performed epit_stop
    ∷ released state_attr_node
    ∷ released attr_group
    ∷ released sysfs_link
    ∷ released interlock_handler
    ∷ released pulsedev
    ∷ cs
