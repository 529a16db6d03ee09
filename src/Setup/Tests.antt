-- ===== src/Setup/Tests.antt =====
-- Probes that go well and probes that fail, and the unwinding theorems at them.
use kernel_module_glowforge.Base.{◌≡◌, ◌⊎◌, refl, true, false, [], ◌∷◌}
use kernel_module_glowforge.Kernel.{ok, is_ok}
use kernel_module_glowforge.Setup.{holding, is_proper, held_within}
use kernel_module_glowforge.Setup.Unwinding.{Unwinds, all-Unwinds}
use kernel_module_glowforge.Thermal
use kernel_module_glowforge.Pic
use kernel_module_glowforge.Head
use kernel_module_glowforge.Module
use kernel_module_glowforge.Cnc.Probe
use kernel_module_glowforge.Cnc.Probe.Unwinding.{
  behind_pulsedev, all_resources, left_held, cnc_probe_lem,
}

abbrev all_well : Probe.Answers
all_well = record {
  mailbox_allocated = true;
  ring_allocated = true;
  kfifo_status = 0;
  gpios_status = 0;
  pwms_status = 0;
  epit_found = true;
  epit_status = 0;
  epit_rate = 66000000;
  has_sdma_params = true;
  sdma_ch_num = 1;
  sdma_found = true;
  channel_found = true;
  script_status = 0;
  regulator_status = 0;
  irq_lookups = 0;
  irq_status_x = 0;
  irq_status_y1 = 0;
  irq_status_y2 = 0;
  group_status = 0;
  dirent_found = true;
  link_status = 0;
  handler_status = 0;
  misc_status = 0;
}

-- The last interrupt is refused: the two before it stay held.
abbrev irq_refused : Probe.Answers
irq_refused = record all_well { irq_status_y2 = 16 }

irqs_stay :
    holding (Probe.cnc_probe irq_refused).1
    ≡ Probe.stepper_fault_irq 1 ∷ Probe.stepper_fault_irq 0 ∷ []
unfolding Probe.cnc_probe
irqs_stay = refl

-- The interrupts are still held once a removal is through, the pins they read are not.
irqs_outlive_pins :
    holding (Probe.cnc_remove (Probe.cnc_probe all_well).1)
    ≡ Probe.stepper_fault_irq 2 ∷ Probe.stepper_fault_irq 1 ∷ Probe.stepper_fault_irq 0 ∷ []
unfolding Probe.cnc_probe Probe.cnc_remove
irqs_outlive_pins = refl

cnc_probe_lem_example :
    let (r, cs) = Probe.cnc_probe irq_refused in
    (is_proper cs ≡ true)
    × (held_within Probe.pulsedev behind_pulsedev cs ≡ true)
    × (((is_ok r ≡ false) × (holding cs ≡ left_held irq_refused))
        ⊎ ((r ≡ ok)
            × (holding cs ≡ all_resources)
            × (is_proper (Probe.cnc_remove cs) ≡ true)
            × (held_within Probe.pulsedev behind_pulsedev (Probe.cnc_remove cs) ≡ true)
            × (holding (Probe.cnc_remove cs)
                ≡ Probe.stepper_fault_irq 2
                  ∷ Probe.stepper_fault_irq 1
                  ∷ Probe.stepper_fault_irq 0
                  ∷ [])))
cnc_probe_lem_example = cnc_probe_lem irq_refused refl

-- The thermal driver's link is refused, the PIC's third LED is, the head and the module go well.
abbrev thermal_answers : Thermal.Probe.Answers
thermal_answers = record {
  allocated = true;
  gpios_status = 0;
  pwms_status = 0;
  tachs = [];
  group_status = 0;
  link_status = 17;
}

abbrev pic_answers : Pic.Probe.Answers
pic_answers = record {
  allocated = true;
  read_status = 0;
  pic_id = 0x4d53;
  trigger_status = 0;
  wq_allocated = true;
  lid_status = 0;
  button_1_status = 0;
  button_2_status = 12;
  button_3_status = 0;
  group_status = 0;
  link_status = 0;
}

abbrev head_answers : Head.Probe.Answers
head_answers = record {
  allocated = true;
  identity = Head.value_of 0x044c;
  settings = 0 ∷ 0 ∷ 0 ∷ 0 ∷ 0 ∷ [];
  group_status = 0;
  link_status = 0;
}

abbrev module_answers : Module.Answers
module_answers = record {
  kobj_created = true;
  pic_status = 0;
  head_status = 0;
  thermal_status = 0;
  cnc_status = 0;
}

head_goes_well : (Head.Probe.head_probe head_answers).0 ≡ ok
unfolding Head.Probe.head_probe
head_goes_well = refl

all-Unwinds_example :
    let (rt, ct) = Thermal.Probe.thermal_probe thermal_answers in
    let (rp, cp) = Pic.Probe.pic_probe pic_answers in
    let (rh, ch) = Head.Probe.head_probe head_answers in
    let (rm, cm) = Module.glowforge_init module_answers in
    Unwinds (6 ∷ 5 ∷ 4 ∷ 3 ∷ 2 ∷ 1 ∷ 0 ∷ []) rt ct (Thermal.Probe.thermal_remove ct)
    × Unwinds (8 ∷ 7 ∷ 6 ∷ 5 ∷ 4 ∷ 3 ∷ 2 ∷ 1 ∷ 0 ∷ []) rp cp (Pic.Probe.pic_remove cp)
    × Unwinds (2 ∷ 1 ∷ 0 ∷ []) rh ch (Head.Probe.head_remove ch)
    × Unwinds (4 ∷ 3 ∷ 2 ∷ 1 ∷ 0 ∷ []) rm cm (Module.glowforge_exit cm)
all-Unwinds_example = all-Unwinds thermal_answers pic_answers head_answers module_answers
