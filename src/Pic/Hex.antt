-- ===== src/Pic/Hex.antt =====
-- The attributes of the PIC that take and show text (src/pic_api.c). The kernel's `sscanf` is a
-- parameter: what it finds at the start of a text.
use kernel_module_glowforge.Base.{
  ℕ, zero, suc, ◌+◌, ◌*◌, ◌/◌, ◌%◌, Bool, true, false, List, [], ◌∷◌, ◌++◌, Option, none, some,
  length, ltb, leb, ◌==◌, if◌then◌else◌,
}
use kernel_module_glowforge.Kernel.{ok, fail, Errno}
use kernel_module_glowforge.Buffer.{Count, count_of, failed}
use kernel_module_glowforge.Pic.{PicTransaction, Reply, Transfer, pic_write_one_register}
use kernel_module_glowforge.Pic.Raw.{
  PicBuffers, Answer, max_registers_per_transfer, transaction_size, pic_write_data,
  pic_copy_last_read_data,
}

abbrev pub page_size : ℕ
page_size = 4096

-- What `sscanf(buf, "%hhx=%hx", &reg, &value)` finds: nothing, a register, or both.
pub data Scanned : Type 0 where
  no_fields : Scanned
  one_field : ℕ → Scanned
  two_fields : ℕ → ℕ → Scanned

-- The commands of a register of eight bits, cut to the eight bits of `pic_command`.
abbrev pub hex_read_command : ℕ → ℕ
hex_read_command reg = reg * 2 % 256

abbrev pub hex_write_command : ℕ → ℕ
hex_write_command reg = 128 + reg * 2 % 128

abbrev pub word_of : Scanned → Option PicTransaction
word_of no_fields = none
word_of (one_field reg) = some (record { cmd = hex_read_command reg; value = 0 })
word_of (two_fields reg value) = some (record { cmd = hex_write_command reg; value = value })

abbrev pub push :
    Option PicTransaction → Option (List PicTransaction) → Option (List PicTransaction)
push none rest = none
push (some w) none = none
push (some w) (some ws) = some (w ∷ ws)

-- The number of commas.
abbrev pub commas : List ℕ → ℕ
commas [] = 0
commas (c ∷ cs) = if c == 44 then suc (commas cs) else commas cs

-- `strchr` to the next comma, and past it; a text ends at its end or at a zero.
abbrev pub after_comma : List ℕ → Option (List ℕ)
after_comma [] = none
after_comma (c ∷ cs) = if c == 0 then none else if c == 44 then some cs else after_comma cs

module _ (scan : List ℕ → Scanned) where
  -- The loop over the commands, from a text or from no more text.
  unfoldable pub scan_words : ℕ → Option (List ℕ) → Option (List PicTransaction)
  scan_words zero text = some []
  scan_words (suc n) none = some []
  scan_words (suc n) (some buf) = push (word_of (scan buf)) (scan_words n (after_comma buf))

  -- `hex_store`; what it returns is the count, or an error.
  unfoldable pub hex_store : Answer → List ℕ → PicBuffers → Count × List PicTransaction × PicBuffers
  hex_store answer buf self =
      let count = length buf in
      let num_tx = 1 + commas buf in
      if count == 0
      then (count_of 0, [], self)
      else if leb page_size count
      then (failed Errno.e2big, [], self)
      else if ltb max_registers_per_transfer num_tx
      then (failed Errno.e2big, [], self)
      else elim (scan_words num_tx (some buf)) [
        | none ↦ (failed Errno.einval, [], self)
        | some raw ↦
            let s = pic_write_data answer raw (length raw * transaction_size) self in
            (elim s.ret [ ok ↦ count_of count | fail e ↦ failed e ], s.words, s.buffers)
      ]

-- `%04hx`
abbrev pub hex_digit : ℕ → ℕ
hex_digit d = if ltb d 10 then 48 + d else 87 + d

abbrev pub hex4 : ℕ → List ℕ
hex4 v =
    hex_digit (v / 4096 % 16)
    ∷ hex_digit (v / 256 % 16)
    ∷ hex_digit (v / 16 % 16)
    ∷ hex_digit (v % 16)
    ∷ []

-- The loop of `hex_show`: the values of the words with commas between them, and the end of the line.
abbrev pub hex_fields : Bool → List PicTransaction → List ℕ
hex_fields first [] = 10 ∷ []
hex_fields first (w ∷ ws) = (if first then [] else 44 ∷ []) ++ hex4 w.value ++ hex_fields false ws

-- `hex_show`
unfoldable pub hex_show : PicBuffers → List ℕ
hex_show self = hex_fields true (pic_copy_last_read_data self).0

-- `raw_store`, of `count` bytes
unfoldable pub raw_store :
    Answer → List PicTransaction → ℕ → PicBuffers → Count × List PicTransaction × PicBuffers
raw_store answer buf count self =
    let s = pic_write_data answer buf count self in
    if count == 0
    then (count_of 0, [], self)
    else (elim s.ret [ ok ↦ count_of count | fail e ↦ failed e ], s.words, s.buffers)

-- `pic_write_register_ascii`, where `sscanf(buf, "%hu", &new_value)` finds a number of sixteen bits
-- or none.
unfoldable pub pic_write_register_ascii : ℕ → Reply → ℕ → Option ℕ → ℕ → Transfer
pic_write_register_ascii stale reply reg none count = record {
  txbuf = [];
  ret = failed (if leb page_size count then Errno.e2big else Errno.einval);
}
pic_write_register_ascii stale reply reg (some new_value) count =
    let t = pic_write_one_register stale reply reg new_value in
    if leb page_size count
    then record { txbuf = []; ret = failed Errno.e2big }
    else if ltb 0x03ff new_value
    then record { txbuf = []; ret = failed Errno.einval }
    else record {
      txbuf = t.txbuf;
      ret = elim t.ret [ count_of n ↦ count_of count | failed e ↦ failed e ];
    }
