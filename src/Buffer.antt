-- ===== src/Buffer.antt =====
-- The queue of pulse data shared with the SDMA engine (src/cnc_buffer.c). What user space hands over
-- is only counted: the bytes themselves go through the kernel's copy into the ring.
pub mod Fill
pub mod Init
pub mod Retrace
mod Tests
use kernel_module_glowforge.Base.{
  ℕ, ◌+◌, ◌-◌, ◌*◌, ◌%◌, ◌^◌, Bool, true, false, not, ◌&&◌, ◌||◌, ◌∷◌, ltb, ◌==◌, if◌then◌else◌,
  add32, sub32,
}
use kernel_module_glowforge.Kernel.{
  Ret, ok, fail, Errno, of_status, sdma_set_tail, sdma_load_scratch,
}
use kernel_module_glowforge.Ring.{Fifo, Ring, Kfifo, Fetch, unplayed}
use kernel_module_glowforge.Backtrack.{decel_steps, max_steps, span}
use kernel_module_glowforge.Cnc.State.{Cnc, is_running}
use kernel_module_glowforge.Cnc.Control.{get_ramp_rate_hz_per_s}

-- The gap that a writer leaves before the play position.
abbrev pub gap_size : ℕ
gap_size = 32 * 1024

-- `cnc_buffer_sync_head`: the fetch writes the play position into the fifo.
abbrev pub sync_head : Fetch → Cnc → Cnc
sync_head fetch c =
    let f = c.ring.fifo in
    let r = c.ring in record c { ring = record r { fifo = record f { out_ix = fetch.value } } }

abbrev pub set_fifo : Fifo → Cnc → Cnc
set_fifo f c = let r = c.ring in record c { ring = record r { fifo = f } }

-- What the kernel answers while user data is added: the fetch of the play position, the status of
-- the copy with the number of bytes that it copied, and the status of publishing the new index.
pub record Copy : Type 0 where
  pub fetch : Fetch
  pub copy_status : ℕ
  pub copied : ℕ
  pub publish_status : ℕ

-- A result: an error, or a count of bytes.
pub data Count : Type 0 where
  count_of : ℕ → Count
  failed : Errno → Count

abbrev pub of_status_or : ℕ → Errno → Count
of_status_or n e = if n == 0 then failed e else failed (Errno.os n)

-- Modes of `cnc_buffer_clear`, as the flags that the driver passes.
pub record ClearFlags : Type 0 where
  pub clear_data : Bool
  pub clear_position : Bool

module _ (k : Kfifo) where
  -- `cnc_buffer_add_user_data`: `size_t` and the index sums are 32 bits wide.
  unfoldable pub add_user_data : Copy → ℕ → Cnc → Count × Cnc
  add_user_data answers count c =
      let d = sync_head answers.fetch c in
      let e = set_fifo (k.advance d.ring.fifo answers.copied) d in
      let rolled =
        set_fifo (let f = e.ring.fifo in record f { in_ix = sub32 f.in_ix answers.copied }) e in
      let r = e.ring in
      let done = record e {
        ring = record r { total_bytes = (r.total_bytes + count) % 2 ^ 64 };
        calls = sdma_set_tail r.fifo.in_ix ∷ e.calls;
      } in
      if is_running c.state && c.running_backward
      then (failed Errno.ebusy, c)
      else if not (answers.fetch.status == 0)
      then (failed (Errno.os answers.fetch.status), d)
      else if ltb (k.avail d.ring.fifo) (add32 count gap_size)
      then (failed Errno.enomem, d)
      else if not (answers.copy_status == 0) || not (answers.copied == count)
      then (of_status_or answers.copy_status Errno.enomem, rolled)
      else if not (answers.publish_status == 0)
      then (failed (Errno.os answers.publish_status), done)
      else (count_of count, done)

  -- `cnc_buffer_clear`: the range of the scratch words 0 to 5 to clear is written, with the new
  -- indices in words 4 and 5 where data is cleared; `load_status` is what that write reports.
  unfoldable pub clear : ℕ → ClearFlags → Cnc → Ret × Cnc
  clear load_status flags c =
      let first = if flags.clear_position then 0 else 3 in
      let last = if flags.clear_data then 5 else 2 in
      let f = k.reset c.ring.fifo in
      if not (flags.clear_data || flags.clear_position) then (fail Errno.einval, c) else (
        of_status load_status,
        if flags.clear_data
            then record c {
              ring = record { fifo = f; total_bytes = 0 };
              calls = sdma_load_scratch first last f.out_ix f.in_ix ∷ c.calls;
            }
            else record c { calls = sdma_load_scratch first last 0 0 ∷ c.calls },
      )

  -- `cnc_clear_pulse_data` (src/cnc.c); the offset 0 clears both, 1 the data, 2 the position.
  unfoldable pub clear_pulse_data : ℕ → ℕ → Cnc → Ret × Cnc
  unfolding clear
  clear_pulse_data load_status opts c =
      let flags : ClearFlags = record {
        clear_data = ltb opts 2;
        clear_position = not (opts == 1);
      } in
      if ltb 2 opts
      then (fail Errno.einval, c)
      else if is_running c.state
      then (fail Errno.eperm, c)
      else clear load_status flags c

  -- `cnc_buffer_is_empty`
  unfoldable pub is_empty : Fetch → Cnc → Bool × Cnc
  is_empty fetch c =
      let d = sync_head fetch c in (not (fetch.status == 0) || k.is_empty d.ring.fifo, d)

  -- `cnc_buffer_get_free_space`
  unfoldable pub get_free_space : Fetch → Cnc → ℕ × Cnc
  get_free_space fetch c =
      let d = sync_head fetch c in
      let avail = k.avail d.ring.fifo in (if ltb gap_size avail then avail - gap_size else 0, d)

  -- `cnc_buffer_max_backtrack_length`
  unfoldable pub max_backtrack_length : Fetch → Cnc → ℕ × Cnc
  max_backtrack_length fetch c =
      let d = sync_head fetch c in
      let f = d.ring.fifo in
      (
        if not (fetch.status == 0)
            then 0
            else max_steps (k.size f) (unplayed f) d.ring.total_bytes
                (decel_steps d.step_freq (get_ramp_rate_hz_per_s d)),
        d,
      )

  -- `cnc_buffer_backtrack_dead_stop`
  unfoldable pub backtrack_dead_stop : Cnc → ℕ
  backtrack_dead_stop c = sub32 c.ring.fifo.in_ix (span (k.size c.ring.fifo) c.ring.total_bytes)

-- `cnc_buffer_total_bytes` saturates.
unfoldable pub total_bytes : Cnc → ℕ
total_bytes c =
    if ltb 0xFFFFFFFF c.ring.total_bytes then 0xFFFFFFFF else c.ring.total_bytes % 2 ^ 32
