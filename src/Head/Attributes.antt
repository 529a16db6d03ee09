-- ===== src/Head/Attributes.antt =====
-- The attributes of the head that take a text (src/head_api.c): four bits of a group register and four
-- word registers.
use kernel_module_glowforge.Base.{ℕ, Bool, ◌||◌, List, [], ◌∷◌, ◌==◌, if◌then◌else◌}
use kernel_module_glowforge.Kernel.{Ret, fail, Errno, of_status}
use kernel_module_glowforge.Head.{
  I2cWrite, head_reg_rw_grp, head_reg_uv_led, head_reg_msr_laser, head_reg_rw_z_enable,
  head_reg_rw_z_current, head_write_bit_ascii, head_write_dword_ascii, head_read_bit_ascii, Reading,
  value_of, unread, number_of,
}
use kernel_module_glowforge.Head.Chip.{HeadChip}

abbrev pub head_reg_rw_purge_air : ℕ
head_reg_rw_purge_air = 4

abbrev pub head_reg_rw_z_mode : ℕ
head_reg_rw_z_mode = 8

abbrev pub head_reg_air_assist_pwm : ℕ
head_reg_air_assist_pwm = 0x10

abbrev pub head_reg_white_led : ℕ
head_reg_white_led = 0x18

-- `head_read_dword_ascii`: the number printed
unfoldable pub head_read_dword_ascii : Reading → Reading
head_read_dword_ascii (unread e) = unread e
head_read_dword_ascii (value_of v) = value_of v

-- The attributes of `DEFINE_HEAD_RW_BOOL_ATTR`, each with the number of its bit, and of
-- `DEFINE_HEAD_RW_DWORD_ATTR`, each with its register.
pub data BoolAttr : Type 0 where
  z_enable_attr z_current_attr purge_air_attr z_mode_attr : BoolAttr

abbrev pub bit_of_attr : BoolAttr → ℕ
bit_of_attr z_enable_attr = 0
bit_of_attr z_current_attr = 1
bit_of_attr purge_air_attr = 2
bit_of_attr z_mode_attr = 3

abbrev pub mask_of_attr : BoolAttr → ℕ
mask_of_attr z_enable_attr = head_reg_rw_z_enable
mask_of_attr z_current_attr = head_reg_rw_z_current
mask_of_attr purge_air_attr = head_reg_rw_purge_air
mask_of_attr z_mode_attr = head_reg_rw_z_mode

pub data WordAttr : Type 0 where
  air_assist_pwm_attr white_led_attr uv_led_attr measure_laser_attr : WordAttr

abbrev pub reg_of_attr : WordAttr → ℕ
reg_of_attr air_assist_pwm_attr = head_reg_air_assist_pwm
reg_of_attr white_led_attr = head_reg_white_led
reg_of_attr uv_led_attr = head_reg_uv_led
reg_of_attr measure_laser_attr = head_reg_msr_laser

pub data HeadAttr : Type 0 where
  bool_attr : BoolAttr → HeadAttr
  word_attr : WordAttr → HeadAttr

-- A text: its characters, and the number that the kernel finds in it, if any.
pub record HeadText : Type 0 where
  pub chars : List ℕ
  pub count : ℕ
  pub parsed : Bool
  pub number : ℕ

-- The store of `DEFINE_HEAD_RW_BOOL_ATTR`, with the status of the write
unfoldable pub head_bool_store : BoolAttr → List ℕ → ℕ → Ret × List I2cWrite
unfolding head_write_bit_ascii
head_bool_store a [] status = (fail Errno.einval, [])
head_bool_store a (ch ∷ rest) status =
    let w = head_write_bit_ascii head_reg_rw_grp (mask_of_attr a) (if ch == 49 then 1 else 0) in
    if ch == 48 || (ch == 49) then (of_status status, w ∷ []) else (fail Errno.einval, [])

unfoldable pub head_store : HeadAttr → HeadText → ℕ → Ret × List I2cWrite
head_store (bool_attr a) t status = head_bool_store a t.chars status
head_store (word_attr a) t status =
    head_write_dword_ascii (reg_of_attr a) t.count t.parsed t.number status

-- The digit or number that an attribute shows, of a head whose reads succeed; `byte` is what a group
-- register reads.
module _ (chip : HeadChip) (byte : chip.State → ℕ → ℕ) where
  unfoldable pub head_show : HeadAttr → chip.State → ℕ
  unfolding head_read_bit_ascii head_read_dword_ascii
  head_show (bool_attr a) s =
      number_of (head_read_bit_ascii (mask_of_attr a) (value_of (byte s head_reg_rw_grp)))
  head_show (word_attr a) s =
      number_of (head_read_dword_ascii (value_of (chip.word s (reg_of_attr a))))
