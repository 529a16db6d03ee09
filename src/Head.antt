-- ===== src/Head.antt =====
-- The driver of the print head behind an I2C bus (src/head.c, src/head_api.c): its registers, the
-- safe state, the attributes, and the resources of its probe.
pub mod Chip
pub mod Registers
pub mod Attributes
pub mod ReadBack
pub mod Probe
pub mod Tests
use kernel_module_glowforge.Base.{
  ℕ, ◌+◌, ◌*◌, ◌/◌, ◌%◌, ◌^◌, Bool, true, false, not, ◌&&◌, ◌||◌, List, [], ◌∷◌, ltb, ◌==◌,
  if◌then◌else◌,
}
use kernel_module_glowforge.Kernel.{Ret, ok, fail, Errno, of_status}

-- The registers; a group register's bits are written through its address with a modifier.
abbrev pub head_reg_ro_grp : ℕ
head_reg_ro_grp = 0x05

abbrev pub head_reg_rw_grp : ℕ
head_reg_rw_grp = 0x06

abbrev pub head_reg_bits_set : ℕ
head_reg_bits_set = 0x40

abbrev pub head_reg_bits_clear : ℕ
head_reg_bits_clear = 0x80

abbrev pub head_reg_rw_z_enable : ℕ
head_reg_rw_z_enable = 1

abbrev pub head_reg_rw_z_current : ℕ
head_reg_rw_z_current = 2

abbrev pub head_reg_uv_led : ℕ
head_reg_uv_led = 0x1a

abbrev pub head_reg_msr_laser : ℕ
head_reg_msr_laser = 0x1c

-- The writes of `head_write_i2c_byte` and `head_write_i2c_word`.
pub data I2cWrite : Type 0 where
  byte_data word_data : ℕ → ℕ → I2cWrite

-- `head_make_safe`, which the dead man's switch calls: all three writes are made, in order, whatever
-- the bus answers to each. The bits of a modified address are apart.
unfoldable pub head_make_safe : List I2cWrite
head_make_safe =
    byte_data (head_reg_rw_grp + head_reg_bits_set) (head_reg_rw_z_enable + head_reg_rw_z_current)
    ∷ word_data head_reg_msr_laser 0
    ∷ word_data head_reg_uv_led 0
    ∷ []

-- `head_write_bit_ascii`, of a group register
unfoldable pub head_write_bit_ascii : ℕ → ℕ → ℕ → I2cWrite
head_write_bit_ascii reg bit value =
    byte_data (if value == 0 then reg + head_reg_bits_clear else reg + head_reg_bits_set) bit

-- What a read of a register gives: an error, or its value.
pub data Reading : Type 0 where
  unread : Errno → Reading
  value_of : ℕ → Reading

-- `head_read_bit_ascii`: the digit printed; `bit` is a mask of one bit, `2 ^ b`.
unfoldable pub head_read_bit_ascii : ℕ → Reading → Reading
head_read_bit_ascii bit (unread e) = unread e
head_read_bit_ascii bit (value_of v) = value_of (v / bit % 2)

-- `head_write_dword_ascii`, of a text of `count` bytes with the number that it parses to, if any: the
-- write is made unless it is refused.
unfoldable pub head_write_dword_ascii : ℕ → ℕ → Bool → ℕ → ℕ → Ret × List I2cWrite
head_write_dword_ascii reg count parsed new_value write_status =
    if not (ltb count 4096)
    then (fail Errno.e2big, [])
    else if not parsed || ltb 0x03ff new_value
    then (fail Errno.einval, [])
    else (of_status write_status, word_data reg new_value ∷ [])

-- What `info_show` reads.
pub record Info : Type 0 where
  pub id : Reading
  pub v1 : Reading
  pub v2 : Reading
  pub v3 : Reading
  pub v4 : Reading
  pub serial_lsb : Reading
  pub serial_msb : Reading
  pub reg5 : Reading
  pub reg6 : Reading

-- What it prints: the serial number is put together from its two words.
pub record Printed : Type 0 where
  pub id : ℕ
  pub serial : ℕ
  pub v1 : ℕ
  pub v2 : ℕ
  pub v3 : ℕ
  pub v4 : ℕ
  pub reg5 : ℕ
  pub reg6 : ℕ

abbrev pub is_read : Reading → Bool
is_read (unread e) = false
is_read (value_of v) = true

abbrev pub number_of : Reading → ℕ
number_of (unread e) = 0
number_of (value_of v) = v

pub data Shown : Type 0 where
  not_shown : Errno → Shown
  shown : Printed → Shown

-- `info_show`: each failed read is the same error.
unfoldable pub info_show : Info → Shown
info_show i =
    if not (is_read i.id)
    then not_shown Errno.eio
    else if not (is_read i.v1 && is_read i.v2 && is_read i.v3 && is_read i.v4)
    then not_shown Errno.eio
    else if not (is_read i.serial_lsb && is_read i.serial_msb)
    then not_shown Errno.eio
    else if not (is_read i.reg5 && is_read i.reg6)
    then not_shown Errno.eio
    else shown (record {
      id = number_of i.id;
      serial = number_of i.serial_lsb + number_of i.serial_msb * 2 ^ 16;
      v1 = number_of i.v1;
      v2 = number_of i.v2;
      v3 = number_of i.v3;
      v4 = number_of i.v4;
      reg5 = number_of i.reg5;
      reg6 = number_of i.reg6;
    })
