-- ===== src/Pic/LastRead.antt =====
-- What the attributes show of the last transfer (src/pic_api.c) fits.
use kernel_module_glowforge.Base.{
  ℕ, ◌+◌, ◌-◌, ◌*◌, ◌/◌, ◌%◌, ◌==◌, ◌&&◌, ◌≤◌, ◌<◌, ◌≡◌, inl, inr, Bool, true, false, List, [], ◌∷◌,
  length, take, leb, All, length-append, Bool-cases, arith,
}
use kernel_module_glowforge.Pic.{
  PicTransaction, Reply, pic_num_registers, write_words, read_words, pic_read_one_register,
  pic_write_one_register, pic_read_register_range, pic_write_register_range,
}
use kernel_module_glowforge.Pic.Raw.{
  PicBuffers, Answer, max_registers_per_transfer, transaction_size, pic_write_data,
  pic_copy_last_read_data,
}
use kernel_module_glowforge.Pic.Hex.{hex_fields, hex_show}
use kernel_module_glowforge.Pic.Buffers.{
  PicOp, reads_one, writes_one, reads_range, writes_range, writes_data, reply_of, pic_op, pic_ops,
  IsAnswered, BufferFits, length-take, transferred-BufferFits, after_transfer-BufferFits,
  length-write_words, length-read_words, length-take_le,
}

-- No transfer sends more words than the buffer holds.
read_range_words :
    (stale first_reg last_reg : ℕ) (reply : Reply)
    → last_reg < pic_num_registers
    → length (pic_read_register_range stale reply first_reg last_reg).0.txbuf
      ≤ max_registers_per_transfer
unfolding pic_read_register_range
read_range_words stale first_reg last_reg reply l =
    let n = length-read_words stale first_reg (last_reg - first_reg + 1) in ground arith

write_range_words :
    (stale first_reg last_reg : ℕ) (reply : Reply) (vs : List ℕ) (count : ℕ)
    → last_reg < pic_num_registers
    → length (pic_write_register_range stale reply first_reg last_reg vs count).txbuf
      ≤ max_registers_per_transfer
unfolding pic_write_register_range
write_range_words stale first_reg last_reg reply vs count l =
    let n = last_reg - first_reg + 1 in
    let w = length-write_words first_reg (take n vs) in
    let r = length-read_words stale first_reg n in
    let t = length-take_le n vs in
    let a = length-append (write_words first_reg (take n vs)) (read_words stale first_reg n) in
    ground arith

write_data-BufferFits :
    (answer : Answer) (ws : List PicTransaction) (count : ℕ) (self : PicBuffers)
    → length answer.received ≡ max_registers_per_transfer
    → BufferFits self
    → BufferFits (pic_write_data answer ws count self).buffers
unfolding pic_write_data
write_data-BufferFits answer ws count self a f = elim (Bool-cases fits) [
  | inl y ↦
      let t = transferred-BufferFits count answer self (ground arith) (ground arith) a f in
      ground arith
  | inr n ↦ ground arith
]
  where
    fits : Bool
    fits =
        (count % transaction_size == 0) && leb count (max_registers_per_transfer * transaction_size)

pic_op-BufferFits :
    (stale : ℕ) (op : PicOp) (answer : Answer) (self : PicBuffers)
    → IsAnswered (op, answer)
    → BufferFits self
    → BufferFits (pic_op stale op answer self)
unfolding pic_op pic_read_one_register pic_write_one_register
pic_op-BufferFits stale (reads_one reg) answer self a f =
    after_transfer-BufferFits (pic_read_one_register stale (reply_of answer) reg).txbuf answer self
      (omega arith) a.1 f
pic_op-BufferFits stale (writes_one reg v) answer self a f =
    after_transfer-BufferFits (pic_write_one_register stale (reply_of answer) reg v).txbuf answer
      self (omega arith) a.1 f
pic_op-BufferFits stale (reads_range first_reg last_reg) answer self a f =
    after_transfer-BufferFits _ answer self
      (read_range_words stale first_reg last_reg (reply_of answer) a.0) a.1 f
pic_op-BufferFits stale (writes_range first_reg last_reg vs count) answer self a f =
    after_transfer-BufferFits _ answer self
      (write_range_words stale first_reg last_reg (reply_of answer) vs count a.0) a.1 f
pic_op-BufferFits stale (writes_data ws count) answer self a f =
    write_data-BufferFits answer ws count self a.1 f

length-hex_fields :
    (first : Bool) (ws : List PicTransaction) → length (hex_fields first ws) ≤ 5 * length ws + 1
length-hex_fields true [] = omega arith
length-hex_fields false [] = omega arith
length-hex_fields true (w ∷ ws) = let h = length-hex_fields false ws in omega arith
length-hex_fields false (w ∷ ws) = let h = length-hex_fields false ws in omega arith

pub pic_ops-BufferFits :
    (stale : ℕ) (ops : List (PicOp × Answer)) (self : PicBuffers)
    → BufferFits self
    → All IsAnswered ops
    → BufferFits (pic_ops stale ops self)
unfolding pic_ops
pic_ops-BufferFits stale [] self f a = f
pic_ops-BufferFits stale ((op, answer) ∷ rest) self f a =
    pic_ops-BufferFits stale rest _ (pic_op-BufferFits stale op answer self a.0 f) a.1

-- Whatever transfers the driver made, in any order, what an attribute shows of the last one fits: it
-- was of whole words, all of them in the receive buffer, no more of them are copied out than the copy
-- of the hexadecimal attribute holds, and its text has at most 171 characters. The ranges that are
-- asked for end at a register of the chip, and the receive buffer holds 34 words.
pub last_read_fits :
    (stale : ℕ) (ops : List (PicOp × Answer)) (self : PicBuffers)
    → BufferFits self
    → All IsAnswered ops
    → let t = pic_ops stale ops self in
      let (words, bytes) = pic_copy_last_read_data t in
      (length words * transaction_size ≡ bytes)
      × (length words ≤ max_registers_per_transfer)
      × (length (hex_show t) ≤ 171)
unfolding hex_show
last_read_fits stale ops self f a =
    let t = pic_ops stale ops self in
    let g = pic_ops-BufferFits stale ops self f a in
    let words = (pic_copy_last_read_data t).0 in
    let n = length-take (t.rxbuf_size / transaction_size) t.rxbuf (omega arith) in
    let h = length-hex_fields true words in (omega arith, omega arith, omega arith)
