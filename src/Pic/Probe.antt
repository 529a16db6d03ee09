-- ===== src/Pic/Probe.antt =====
-- The resources of the PIC driver and its LEDs: `pic_probe`, `pic_remove` (src/pic.c),
-- `pic_register_leds` and `pic_unregister_leds` (src/pic_leds.c).
use kernel_module_glowforge.Base.{ℕ, Bool, not, List, [], ◌∷◌, ◌==◌, if◌then◌else◌}
use kernel_module_glowforge.Kernel.{Ret, ok, fail, is_ok, of_status, Errno}
use kernel_module_glowforge.Setup.{
  SetupCall, acquired, released, performed, make_safe, write_initial_values,
}

abbrev pub smooth_trigger : ℕ
smooth_trigger = 0

abbrev pub led_wq : ℕ
led_wq = 1

abbrev pub lid_led : ℕ
lid_led = 2

abbrev pub button_led_1 : ℕ
button_led_1 = 3

abbrev pub button_led_2 : ℕ
button_led_2 = 4

abbrev pub button_led_3 : ℕ
button_led_3 = 5

abbrev pub pic_attr_group : ℕ
pic_attr_group = 6

abbrev pub pic_link : ℕ
pic_link = 7

abbrev pub dms_notifier : ℕ
dms_notifier = 8

abbrev pub pic_magic_number : ℕ
pic_magic_number = 0x4d53

-- What the kernel answers; `pic_id` is what the identity register reads.
pub record Answers : Type 0 where
  pub allocated : Bool
  pub read_status : ℕ
  pub pic_id : ℕ
  pub trigger_status : ℕ
  pub wq_allocated : Bool
  pub lid_status : ℕ
  pub button_1_status : ℕ
  pub button_2_status : ℕ
  pub button_3_status : ℕ
  pub group_status : ℕ
  pub link_status : ℕ

-- `pic_unregister_leds`: the class devices that are registered, in order, and the work queue.
abbrev pub unregister : List ℕ → List SetupCall → List SetupCall
unregister [] cs = cs
unregister (led ∷ leds) cs = unregister leds (released led ∷ cs)

unfoldable pub pic_unregister_leds : List ℕ → List SetupCall → List SetupCall
pic_unregister_leds leds cs = released led_wq ∷ unregister leds (released smooth_trigger ∷ cs)

-- `pic_register_leds`: a class device that is refused is not registered.
unfoldable pub pic_register_leds : Answers → List SetupCall → Ret × List SetupCall
unfolding pic_unregister_leds
pic_register_leds a cs =
    let c1 = acquired smooth_trigger ∷ cs in
    let c2 = acquired led_wq ∷ c1 in
    let c3 = acquired lid_led ∷ c2 in
    let c4 = acquired button_led_1 ∷ c3 in
    let c5 = acquired button_led_2 ∷ c4 in
    if not (a.trigger_status == 0)
    then (of_status a.trigger_status, cs)
    else if not a.wq_allocated
    then (fail Errno.enomem, released smooth_trigger ∷ c1)
    else if not (a.lid_status == 0)
    then (of_status a.lid_status, pic_unregister_leds [] c2)
    else if not (a.button_1_status == 0)
    then (of_status a.button_1_status, pic_unregister_leds (lid_led ∷ []) c3)
    else if not (a.button_2_status == 0)
    then (of_status a.button_2_status, pic_unregister_leds (lid_led ∷ button_led_1 ∷ []) c4)
    else if not (a.button_3_status == 0)
    then (
      of_status a.button_3_status,
      pic_unregister_leds (lid_led ∷ button_led_1 ∷ button_led_2 ∷ []) c5,
    )
    else (ok, acquired button_led_3 ∷ c5)

abbrev pub all_leds : List ℕ
all_leds = lid_led ∷ button_led_1 ∷ button_led_2 ∷ button_led_3 ∷ []

-- The labels of `pic_probe`: `failed_register_leds` only gives the lock up.
abbrev pub failed_create_group : List SetupCall → List SetupCall
failed_create_group cs = pic_unregister_leds all_leds cs

abbrev pub failed_create_link : List SetupCall → List SetupCall
failed_create_link cs = failed_create_group (released pic_attr_group ∷ cs)

-- `pic_probe`
unfoldable pub pic_probe : Answers → Ret × List SetupCall
unfolding pic_register_leds pic_unregister_leds
pic_probe a =
    let (leds, c1) = pic_register_leds a [] in
    let c2 = acquired pic_attr_group ∷ c1 in
    if not a.allocated
    then (fail Errno.enomem, [])
    else if not (a.read_status == 0)
    then (of_status a.read_status, [])
    else if not (a.pic_id == pic_magic_number)
    then (fail Errno.enodev, [])
    else if not (is_ok leds)
    then (leds, c1)
    else if not (a.group_status == 0)
    then (of_status a.group_status, failed_create_group c1)
    else if not (a.link_status == 0)
    then (of_status a.link_status, failed_create_link c2)
    else (ok, performed write_initial_values ∷ acquired dms_notifier ∷ acquired pic_link ∷ c2)

-- `pic_remove`
unfoldable pub pic_remove : List SetupCall → List SetupCall
unfolding pic_unregister_leds
pic_remove cs =
    pic_unregister_leds all_leds (
      released pic_attr_group
      ∷ released pic_link
      ∷ released dms_notifier
      ∷ performed make_safe
      ∷ cs)
