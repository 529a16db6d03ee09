-- ===== src/Buffer/Fill.antt =====
-- Adding user data: the gap, the accounting, and the error paths.
use kernel_module_glowforge.Base.{
  ℕ, ◌+◌, ◌%◌, ◌^◌, ◌≤◌, ◌<◌, ◌≡◌, ◌≢◌, refl, arith, add32, u32_mod, Bool, true, not, ◌&&◌, ◌==◌,
  ltb, if◌then◌else◌,
}
use kernel_module_glowforge.Kernel.{Errno}
use kernel_module_glowforge.Ring.{Fifo, Kfifo, unplayed}
use kernel_module_glowforge.Cnc.State.{Cnc, is_running}
use kernel_module_glowforge.Buffer.{gap_size, sync_head, Copy, count_of, failed, add_user_data}

-- The fifo's indices are 32-bit words, at most a gibibyte fits it, and it holds no more than that.
pub record FifoFits (k : Kfifo) (f : Fifo) : Type 0 where
  pub in_word : f.in_ix < u32_mod
  pub out_word : f.out_ix < u32_mod
  pub size_max : k.size f ≤ 2 ^ 30
  pub filled : unplayed f ≤ k.size f

-- How the fifo changes as bytes are copied in.
advance_parts :
    (k : Kfifo) (f : Fifo) (n : ℕ)
    → let g = k.advance f n in
      (g.in_ix ≡ add32 f.in_ix n) × (g.out_ix ≡ f.out_ix) × (g.mask ≡ f.mask)
advance_parts k f n = rw (k.advance_lem f n) (refl, refl, refl)

module _ (k : Kfifo) (a : Copy) (count : ℕ) (c : Cnc) where
  abbrev synced : Cnc
  synced = sync_head a.fetch c

  abbrev after : Cnc
  after = (add_user_data k a count c).1

  -- A write that succeeds returns its count, adds just that many bytes to what the engine has still
  -- to play and to the total, and leaves the gap free.
  pub add-succeeds :
      (n : ℕ)
      → FifoFits k synced.ring.fifo
      → count + gap_size < u32_mod
      → (add_user_data k a count c).0 ≡ count_of n
      → (n ≡ count)
        × (unplayed after.ring.fifo ≡ unplayed synced.ring.fifo + count)
        × (unplayed after.ring.fifo + gap_size ≤ k.size synced.ring.fifo)
        × (after.ring.total_bytes ≡ (c.ring.total_bytes + count) % 2 ^ 64)
  unfolding add_user_data
  add-succeeds n f fits e =
      ground (arith, advance_parts k synced.ring.fifo a.copied, k.avail_lem synced.ring.fifo)

  -- All the bytes are copied, so that the write comes to publishing the new index.
  abbrev pub comes_to_publish : Bool
  comes_to_publish =
      not (is_running c.state && c.running_backward)
      && (a.fetch.status == 0)
      && not (ltb (k.avail synced.ring.fifo) (add32 count gap_size))
      && (a.copy_status == 0)
      && (a.copied == count)

  -- A write that fails before the new index is published leaves the write index and the total as
  -- they were, a short copy taken back included. One that fails as the index is published returns
  -- that error, but has added its bytes to the fifo and to the total. The fifo's indices are words
  -- of 32 bits that fit its size, and what was copied is one.
  pub add-fails :
      (e : Errno)
      → FifoFits k synced.ring.fifo
      → a.copied < u32_mod
      → (add_user_data k a count c).0 ≡ failed e
      → (comes_to_publish ≡ true → (a.publish_status ≢ 0) × (e ≡ Errno.os a.publish_status))
        × (after.ring.fifo.in_ix
            ≡ (if comes_to_publish then add32 c.ring.fifo.in_ix count else c.ring.fifo.in_ix))
        × (after.ring.total_bytes ≡ (
            if comes_to_publish then (c.ring.total_bytes + count) % 2 ^ 64 else c.ring.total_bytes))
  unfolding add_user_data
  add-fails e f w h = ground (arith, advance_parts k synced.ring.fifo a.copied)
