-- ===== src/Ring.antt =====
-- The pulse ring: the driver's members (src/cnc_private.h) and the kernel's kfifo, which the driver
-- calls. The kfifo functions are a parameter, with the documented laws that the driver relies on.
pub mod Plain
use kernel_module_glowforge.Base.{ℕ, ◌+◌, ◌≡◌, ◌↔◌, Bool, true, add32, sub32}

-- The members of a kfifo: free-running 32-bit indices, and the size less one.
pub record Fifo : Type 0 where
  pub in_ix : ℕ
  pub out_ix : ℕ
  pub mask : ℕ

-- `pulsebuf_fifo` and `pulsebuf_total_bytes`.
pub record Ring : Type 0 where
  pub fifo : Fifo
  pub total_bytes : ℕ

-- The bytes enqueued and not yet played: the distance of the two indices.
abbrev pub unplayed : Fifo → ℕ
unplayed f = sub32 f.in_ix f.out_ix

-- `advance f n` is the fifo after `n` bytes were put into it.
pub record Kfifo : Type 0 where
  pub size : Fifo → ℕ
  pub avail : Fifo → ℕ
  pub is_empty : Fifo → Bool
  pub advance : Fifo → ℕ → Fifo
  pub reset : Fifo → Fifo
  pub size_lem : (f : Fifo) → size f ≡ f.mask + 1
  pub avail_lem : (f : Fifo) → avail f ≡ sub32 (size f) (unplayed f)
  pub is_empty_iff : (f : Fifo) → (is_empty f ≡ true) ↔ (f.in_ix ≡ f.out_ix)
  pub advance_lem : (f : Fifo) (n : ℕ) → advance f n ≡ record f { in_ix = add32 f.in_ix n }
  pub reset_lem : (f : Fifo) → unplayed (reset f) ≡ 0

-- What a fetch of one word of the SDMA channel context gives: its status, and what it leaves in the
-- word that it writes to.
pub record Fetch : Type 0 where
  pub status : ℕ
  pub value : ℕ
