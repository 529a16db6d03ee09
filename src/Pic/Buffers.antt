-- ===== src/Pic/Buffers.antt =====
-- The receive buffer of the PIC over any sequence of the driver's transfers (src/pic.c), and what the
-- attributes show of it (src/pic_api.c).
use kernel_module_glowforge.Base.{
  ℕ, zero, suc, ◌-◌, ◌*◌, ◌/◌, ◌%◌, ◌≤◌, ◌<◌, ◌≡◌, List, [], ◌∷◌, length, take, drop, map, refl, ap,
  length-append, arith,
}
use kernel_module_glowforge.Pic.{
  PicTransaction, Reply, pic_num_registers, write_words, read_words, pic_read_one_register,
  pic_write_one_register, pic_read_register_range, pic_write_register_range,
}
use kernel_module_glowforge.Pic.Raw.{
  PicBuffers, Answer, max_registers_per_transfer, transaction_size, pic_write_data, transferred,
}

-- The transfers that the driver makes, with the values that the caller gives.
pub data PicOp : Type 0 where
  reads_one : ℕ → PicOp
  writes_one : ℕ → ℕ → PicOp
  reads_range : ℕ → ℕ → PicOp
  writes_range : ℕ → ℕ → List ℕ → ℕ → PicOp
  writes_data : List PicTransaction → ℕ → PicOp

abbrev values : List PicTransaction → List ℕ
values ws = map (λ w. w.value) ws

abbrev pub reply_of : Answer → Reply
reply_of answer = record { status = answer.status; rxbuf = values answer.received }

abbrev after_transfer : List PicTransaction → Answer → PicBuffers → PicBuffers
after_transfer [] answer self = self
after_transfer (w ∷ ws) answer self = transferred (suc (length ws) * transaction_size) answer self

-- A transfer: what it leaves in the receive buffer.
unfoldable pub pic_op : ℕ → PicOp → Answer → PicBuffers → PicBuffers
pic_op stale (reads_one reg) answer self =
    after_transfer (pic_read_one_register stale (reply_of answer) reg).txbuf answer self
pic_op stale (writes_one reg v) answer self =
    after_transfer (pic_write_one_register stale (reply_of answer) reg v).txbuf answer self
pic_op stale (reads_range first_reg last_reg) answer self =
    after_transfer (pic_read_register_range stale (reply_of answer) first_reg last_reg).0.txbuf
      answer self
pic_op stale (writes_range first_reg last_reg vs count) answer self =
    after_transfer
      (pic_write_register_range stale (reply_of answer) first_reg last_reg vs count).txbuf answer
      self
pic_op stale (writes_data ws count) answer self = (pic_write_data answer ws count self).buffers

unfoldable pub pic_ops : ℕ → List (PicOp × Answer) → PicBuffers → PicBuffers
pic_ops stale [] self = self
pic_ops stale ((op, answer) ∷ rest) self = pic_ops stale rest (pic_op stale op answer self)

-- The range of a transfer ends at a register of the chip; the bus fills the words of the buffer.
abbrev InChip : PicOp → Type 0
InChip (reads_one reg) = Unit
InChip (writes_one reg v) = Unit
InChip (reads_range first_reg last_reg) = last_reg < pic_num_registers
InChip (writes_range first_reg last_reg vs count) = last_reg < pic_num_registers
InChip (writes_data ws count) = Unit

abbrev pub IsAnswered : PicOp × Answer → Type 0
IsAnswered (op, answer) = InChip op × (length answer.received ≡ max_registers_per_transfer)

-- The last transfer was of whole words, no more than the receive buffer holds.
abbrev pub BufferFits : PicBuffers → Type 0
BufferFits self =
    (length self.rxbuf ≡ max_registers_per_transfer)
    × (self.rxbuf_size % transaction_size ≡ 0)
    × (self.rxbuf_size ≤ max_registers_per_transfer * transaction_size)

module _ {ℓ} {A : Type ℓ} where
  pub length-take : (n : ℕ) (xs : List A) → n ≤ length xs → length (take n xs) ≡ n
  length-take zero xs l = refl
  length-take (suc n) [] l = omega arith
  length-take (suc n) (x ∷ xs) l = ap suc (length-take n xs (omega arith))

  length-drop : (n : ℕ) (xs : List A) → length (drop n xs) ≡ length xs - n
  length-drop zero xs = omega arith
  length-drop (suc n) [] = omega arith
  length-drop (suc n) (x ∷ xs) = let h = length-drop n xs in omega arith

pub transferred-BufferFits :
    (count : ℕ) (answer : Answer) (self : PicBuffers)
    → count % transaction_size ≡ 0
    → count ≤ max_registers_per_transfer * transaction_size
    → length answer.received ≡ max_registers_per_transfer
    → BufferFits self
    → BufferFits (transferred count answer self)
transferred-BufferFits count answer self w l a f =
    let n = count / transaction_size in
    let t = length-take n answer.received (omega arith) in
    let d = length-drop n self.rxbuf in
    let k = length-append (take n answer.received) (drop n self.rxbuf) in
    (omega (arith, f.0), omega arith, omega arith)

pub after_transfer-BufferFits :
    (ws : List PicTransaction) (answer : Answer) (self : PicBuffers)
    → length ws ≤ max_registers_per_transfer
    → length answer.received ≡ max_registers_per_transfer
    → BufferFits self
    → BufferFits (after_transfer ws answer self)
after_transfer-BufferFits [] answer self l a f = f
after_transfer-BufferFits (w ∷ ws) answer self l a f =
    transferred-BufferFits (suc (length ws) * transaction_size) answer self (omega arith)
      (omega arith) a f

pub length-write_words : (r : ℕ) (vs : List ℕ) → length (write_words r vs) ≡ length vs
length-write_words r [] = refl
length-write_words r (v ∷ vs) = ap suc (length-write_words (suc r) vs)

pub length-read_words : (stale r n : ℕ) → length (read_words stale r n) ≡ n
length-read_words stale r zero = refl
length-read_words stale r (suc n) = ap suc (length-read_words stale (suc r) n)

pub length-take_le : (n : ℕ) (xs : List ℕ) → length (take n xs) ≤ n
length-take_le zero xs = omega arith
length-take_le (suc n) [] = omega arith
length-take_le (suc n) (x ∷ xs) = let h = length-take_le n xs in omega arith
