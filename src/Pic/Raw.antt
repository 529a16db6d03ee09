-- ===== src/Pic/Raw.antt =====
-- The buffers of the PIC driver and its raw transfers (`struct pic`, `pic_transfer`,
-- `pic_write_data`, `pic_copy_last_read_data`, src/pic.c). The buffers are words of three bytes.
use kernel_module_glowforge.Base.{
  ℕ, zero, suc, ◌-◌, ◌*◌, ◌/◌, ◌%◌, not, List, [], ◌∷◌, ◌++◌, take, drop, ltb, ◌==◌, if◌then◌else◌,
}
use kernel_module_glowforge.Kernel.{Ret, fail, Errno, of_status}
use kernel_module_glowforge.Pic.{PicTransaction, pic_num_registers}

abbrev pub transaction_size : ℕ
transaction_size = 3

abbrev pub max_registers_per_transfer : ℕ
max_registers_per_transfer = pic_num_registers * 2

-- `struct pic`: what the last transfers left in the receive buffer, and the bytes of the last one.
pub record PicBuffers : Type 0 where
  pub rxbuf : List PicTransaction
  pub rxbuf_size : ℕ

-- What `spi_sync_transfer` answers: its status, and the words in the receive buffer afterwards.
pub record Answer : Type 0 where
  pub status : ℕ
  pub received : List PicTransaction

-- The busy wait before a transfer, `n` rounds at most: the microseconds of each round.
unfoldable pub settle_rounds : ℕ → ℕ → List ℕ
settle_rounds zero settle = []
settle_rounds (suc n) settle =
    let step = if ltb 50 settle then 50 else settle in
    let rest = settle_rounds n (settle - step) in if settle == 0 then [] else step ∷ rest

-- A transfer of `count` bytes: the size is noted before it, and the words received stand first.
abbrev pub transferred : ℕ → Answer → PicBuffers → PicBuffers
transferred count answer self =
    let n = count / transaction_size in
    record { rxbuf = take n answer.received ++ drop n self.rxbuf; rxbuf_size = count }

-- What a raw write returns, the words it sends, and the buffers.
pub record Sent : Type 0 where
  pub ret : Ret
  pub words : List PicTransaction
  pub buffers : PicBuffers

-- `pic_write_data`, of `count` bytes of a buffer of words
unfoldable pub pic_write_data : Answer → List PicTransaction → ℕ → PicBuffers → Sent
pic_write_data answer buf count self =
    let n = count / transaction_size in
    if not (count % transaction_size == 0)
    then record { ret = fail Errno.einval; words = []; buffers = self }
    else if ltb (max_registers_per_transfer * transaction_size) count
    then record { ret = fail Errno.e2big; words = []; buffers = self }
    else record {
      ret = of_status answer.status;
      words = take n buf;
      buffers = transferred count answer self;
    }

-- `pic_copy_last_read_data`
abbrev pub pic_copy_last_read_data : PicBuffers → List PicTransaction × ℕ
pic_copy_last_read_data self =
    (take (self.rxbuf_size / transaction_size) self.rxbuf, self.rxbuf_size)
