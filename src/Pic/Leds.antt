-- ===== src/Pic/Leds.antt =====
-- The LEDs of the PIC (src/pic_leds.c): a brightness is written by work on an ordered queue.
use kernel_module_glowforge.Base.{ℕ, Bool, List, [], ◌∷◌, ◌++◌, ltb, if◌then◌else◌}
use kernel_module_glowforge.Pic.{Reply, Transfer, pic_write_one_register}

abbrev pub pic_led_max_brightness : ℕ
pic_led_max_brightness = 1023

-- `struct pic_led_work`
pub record PicLedWork : Type 0 where
  pub reg : ℕ
  pub value : ℕ

-- `pic_led_set`, on the queue, oldest first; nothing is queued where there is no queue any more, or no
-- memory.
unfoldable pub pic_led_set : Bool → Bool → ℕ → ℕ → List PicLedWork → List PicLedWork
pic_led_set has_queue allocated reg brightness queue =
    let value =
      if ltb pic_led_max_brightness brightness then pic_led_max_brightness else brightness in
    if has_queue
    then if allocated then queue ++ (record { reg = reg; value = value } ∷ []) else queue
    else queue

-- `pic_led_set_work`: the write of one register, whose outcome nobody reads.
unfoldable pub pic_led_set_work : ℕ → Reply → PicLedWork → Transfer
unfolding pic_write_one_register
pic_led_set_work stale reply w = pic_write_one_register stale reply w.reg w.value
