-- ===== src/Pic.antt =====
-- The driver of the PIC, a register file behind an SPI bus (src/pic.c). A transfer is a list of
-- words, each a command and a value; the words that come back are the kernel's answer.
pub mod Chip
pub mod Registers
pub mod Probe
pub mod Raw
pub mod Settle
pub mod Hex
pub mod Fields
pub mod Buffers
pub mod LastRead
pub mod Leds
pub mod LedOrder
pub mod Tests
mod HexTests
use kernel_module_glowforge.Base.{
  ℕ, zero, suc, ◌+◌, ◌-◌, ◌*◌, Bool, true, false, not, ◌&&◌, List, [], ◌∷◌, ◌++◌, length, drop,
  get_or, ltb, ◌==◌, if◌then◌else◌, take,
}
use kernel_module_glowforge.Kernel.{Errno}
use kernel_module_glowforge.Buffer.{Count, count_of, failed}

-- `struct pic_transaction`
pub record PicTransaction : Type 0 where
  pub cmd : ℕ
  pub value : ℕ

-- `REGISTER_READ_COMMAND`, `REGISTER_WRITE_COMMAND`: a register's number has less than six bits.
abbrev pub register_read_command : ℕ → ℕ
register_read_command reg = reg * 2

abbrev pub register_write_command : ℕ → ℕ
register_write_command reg = 128 + reg * 2

abbrev pub pic_first_output_register : ℕ
pic_first_output_register = 9

abbrev pub pic_last_output_register : ℕ
pic_last_output_register = 14

abbrev pub pic_num_registers : ℕ
pic_num_registers = 17

-- What `spi_sync_transfer` answers: its status, and the values of the words received.
pub record Reply : Type 0 where
  pub status : ℕ
  pub rxbuf : List ℕ

-- What a routine sends, and what it returns.
pub record Transfer : Type 0 where
  pub txbuf : List PicTransaction
  pub ret : Count

-- The loops that fill the transmit buffer: a read's value is whatever the buffer held (`stale`).
abbrev pub write_words : ℕ → List ℕ → List PicTransaction
write_words reg [] = []
write_words reg (v ∷ vs) =
    record { cmd = register_write_command reg; value = v } ∷ write_words (suc reg) vs

abbrev pub read_words : ℕ → ℕ → ℕ → List PicTransaction
read_words stale reg zero = []
read_words stale reg (suc n) =
    record { cmd = register_read_command reg; value = stale } ∷ read_words stale (suc reg) n

-- The loop that compares what was read back with what was written.
abbrev pub verified : List ℕ → List ℕ → Bool
verified [] actual = true
verified (e ∷ es) [] = false
verified (e ∷ es) (a ∷ actual) = (a == e) && verified es actual

-- `pic_read_one_register`
unfoldable pub pic_read_one_register : ℕ → Reply → ℕ → Transfer
pic_read_one_register stale reply reg = record {
  txbuf = read_words stale reg 1;
  ret =
      if reply.status == 0
      then count_of (get_or reply.rxbuf 0 0)
      else failed (Errno.os reply.status);
}

-- `pic_write_one_register`; the count is 0.
unfoldable pub pic_write_one_register : ℕ → Reply → ℕ → ℕ → Transfer
pic_write_one_register stale reply reg new_value = record {
  txbuf = write_words reg (new_value ∷ []) ++ read_words stale reg 1;
  ret =
      if not (reply.status == 0)
      then failed (Errno.os reply.status)
      else if verified (new_value ∷ []) (drop 1 reply.rxbuf)
      then count_of 0
      else failed Errno.eio;
}

-- `pic_read_register_range`: the values that it stores are the first of the reply.
unfoldable pub pic_read_register_range : ℕ → Reply → ℕ → ℕ → Transfer × List ℕ
pic_read_register_range stale reply first_reg last_reg =
    let num_regs = last_reg - first_reg + 1 in
    if ltb last_reg first_reg
    then (record { txbuf = []; ret = failed Errno.einval }, [])
    else if not (reply.status == 0)
    then (
      record { txbuf = read_words stale first_reg num_regs; ret = failed (Errno.os reply.status) },
      [],
    )
    else (
      record { txbuf = read_words stale first_reg num_regs; ret = count_of (num_regs * 2) },
      take num_regs reply.rxbuf,
    )

-- `pic_write_register_range`, of a buffer of `count` bytes that holds `values`
unfoldable pub pic_write_register_range : ℕ → Reply → ℕ → ℕ → List ℕ → ℕ → Transfer
pic_write_register_range stale reply first_reg last_reg values count =
    let num_regs = last_reg - first_reg + 1 in
    let sent = take num_regs values in
    let tx = write_words first_reg sent ++ read_words stale first_reg num_regs in
    if ltb last_reg first_reg
    then record { txbuf = []; ret = failed Errno.einval }
    else if not (count == num_regs * 2)
    then record { txbuf = []; ret = failed Errno.einval }
    else if not (reply.status == 0)
    then record { txbuf = tx; ret = failed (Errno.os reply.status) }
    else if verified sent (drop num_regs reply.rxbuf)
    then record { txbuf = tx; ret = count_of count }
    else record { txbuf = tx; ret = failed Errno.eio }

-- `pic_make_safe`, which the dead man's switch calls
unfoldable pub pic_make_safe : ℕ → Reply → Transfer
pic_make_safe stale reply =
    pic_write_register_range stale reply pic_first_output_register pic_last_output_register
      (0 ∷ 0 ∷ 0 ∷ 0 ∷ 0 ∷ 0 ∷ []) 12
