-- ===== src/Buffer/Tests.antt =====
-- Writes and backward runs on a small ring.
use kernel_module_glowforge.Base.{
  if◌then◌else◌, ◌+◌, ◌-◌, ◌%◌, ◌^◌, ◌≤◌, ◌≡◌, ◌≢◌, refl, true, min, arith, add32, sub32,
}
use kernel_module_glowforge.Kernel.{ok, Errno}
use kernel_module_glowforge.Ring.{Ring, Fetch, unplayed}
use kernel_module_glowforge.Ring.Plain.{plain_kfifo}
use kernel_module_glowforge.Backtrack.{decel_steps, max_steps}
use kernel_module_glowforge.Cnc.State.{Cnc, disabled}
use kernel_module_glowforge.Cnc.Control.{get_ramp_rate_hz_per_s}
use kernel_module_glowforge.Cnc.Run.{StartEnv, RunOptions, publish_run}
use kernel_module_glowforge.Cnc.Fault.{zeroed}
use kernel_module_glowforge.Buffer.{
  Copy, count_of, failed, add_user_data, backtrack_dead_stop, gap_size, sync_head,
}
use kernel_module_glowforge.Buffer.Fill.{FifoFits, add-succeeds, comes_to_publish, add-fails}
use kernel_module_glowforge.Buffer.Retrace.{backward_run_fits, write_keeps_history, tail}

-- 64 KiB, 5000 bytes enqueued, of which 4000 are played when the fetch answers.
abbrev ring : Ring
ring = record { fifo = record { in_ix = 5000; out_ix = 0; mask = 65535 }; total_bytes = 5000 }

abbrev driver : Cnc
driver = record (zeroed ring) {
  state = disabled;
  step_freq = 10000;
  ramp_step_freq = 10000;
  ramp_step_freq_delta = 1250;
}

abbrev played : Fetch
played = record { status = 0; value = 4000 }

abbrev copies : Copy
copies = record { fetch = played; copy_status = 0; copied = 700; publish_status = 0 }

-- The publication of the index fails.
abbrev unpublished : Copy
unpublished = record copies { publish_status = 5 }

write_700 : (add_user_data plain_kfifo copies 700 driver).0 ≡ count_of 700
unfolding add_user_data
write_700 = refl

-- 40000 bytes would leave less than the gap.
write_40000 :
    (add_user_data plain_kfifo (record copies { copied = 40000 }) 40000 driver).0
    ≡ failed Errno.enomem
unfolding add_user_data
write_40000 = refl

write_unpublished : (add_user_data plain_kfifo unpublished 700 driver).0 ≡ failed (Errno.os 5)
unfolding add_user_data
write_unpublished = refl

fits : FifoFits plain_kfifo (sync_head played driver).ring.fifo
fits = omega arith

write_of_700_succeeds :
    (copies.copied ≡ 700)
    × (unplayed (add_user_data plain_kfifo copies 700 driver).1.ring.fifo
        ≡ unplayed (sync_head played driver).ring.fifo + 700)
    × (unplayed (add_user_data plain_kfifo copies 700 driver).1.ring.fifo + gap_size ≤ 65536)
    × ((add_user_data plain_kfifo copies 700 driver).1.ring.total_bytes ≡ (5000 + 700) % 2 ^ 64)
write_of_700_succeeds = add-succeeds plain_kfifo copies 700 driver 700 fits (omega arith) write_700

add-fails_example :
    let d = (add_user_data plain_kfifo unpublished 700 driver).1 in
    let publishes = comes_to_publish plain_kfifo unpublished 700 driver in
    (publishes ≡ true
      → (unpublished.publish_status ≢ 0) × (Errno.os 5 ≡ Errno.os unpublished.publish_status))
    × (d.ring.fifo.in_ix ≡ (if publishes then add32 5000 700 else 5000))
    × (d.ring.total_bytes ≡ (if publishes then (5000 + 700) % 2 ^ 64 else 5000))
add-fails_example =
    add-fails plain_kfifo unpublished 700 driver (Errno.os 5) fits (omega arith) write_unpublished

write_keeps_history_example :
    let d = (add_user_data plain_kfifo copies 700 driver).1 in
    min gap_size (d.ring.total_bytes - unplayed d.ring.fifo)
    ≤ max_steps 65536 (unplayed d.ring.fifo) d.ring.total_bytes (tail d) + tail d
write_keeps_history_example =
    write_keeps_history plain_kfifo copies 700 driver 700 fits (omega arith) (omega arith)
      (omega arith) write_700

abbrev env : StartEnv
env = record {
  empty_fetch = played;
  script_fetch_status = 0;
  script_intact = true;
  script_write_status = 0;
  backtrack_fetch = played;
  regs_status = 0;
  inhibit_status = 0;
  was_powered = true;
  rail = record { is_on = true; status = 0 };
  rail_off = record { is_on = true; status = 0 };
  latch_level = 1;
  laser_bits = 6;
}

abbrev back_3000 : RunOptions
back_3000 = record {
  num_steps = 3000;
  backward = true;
  accelerate = true;
  decelerate = true;
  preserve_power = true;
}

let_through : (publish_run plain_kfifo env back_3000 driver).0 ≡ ok
unfolding publish_run decel_steps max_steps get_ramp_rate_hz_per_s
let_through = refl

backward_run_fits_example :
    let d = (publish_run plain_kfifo env back_3000 driver).1 in
    3000 + tail d ≤ sub32 d.ring.fifo.out_ix (backtrack_dead_stop plain_kfifo d)
backward_run_fits_example =
    backward_run_fits plain_kfifo env back_3000 driver fits (omega arith) (omega arith) let_through
