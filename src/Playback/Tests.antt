-- ===== src/Playback/Tests.antt =====
-- A feeder of a ring that has wrapped, and the driver from its probe on.
use kernel_module_glowforge.Base.{
  ◌+◌, length, ◌%◌, ◌≡◌, inr, true, false, List, [], ◌∷◌, ◌++◌, refl, arith,
}
use kernel_module_glowforge.Ring.Plain.{plain_kfifo}
use kernel_module_glowforge.Cnc.State.{Cnc, CncState, idle, running, disabled}
use kernel_module_glowforge.Cnc.Fault.{zeroed, probe}
use kernel_module_glowforge.Engine.{Engine, no_lines}
use kernel_module_glowforge.Engine.Bytes.{
  Memory, consume, play_pulse, play_power, end_byte, all_done,
}
use kernel_module_glowforge.Playback.{
  System, Write, write, Step, writes, starts, consumes_byte, start_forward, step, run,
}
use kernel_module_glowforge.Playback.Fed.{contents, IsFed, IsAllowed}
use kernel_module_glowforge.Playback.Order.{plays_in_order}
use kernel_module_glowforge.Playback.Ends.{byte_steps}
use kernel_module_glowforge.Playback.Job.{HasEnded, deliver, job_completes}
use kernel_module_glowforge.Buffer.{is_empty}
use kernel_module_glowforge.Playback.Start.{started, plays_what_it_takes}
use kernel_module_glowforge.Playback.Counts.{ShowsCounts, position_counts}
use kernel_module_glowforge.Cnc.Position.{get_position}
use kernel_module_glowforge.Playback.Plain.{copy_bytes, copier, plain_setup, halvings}
use kernel_module_glowforge.Buffer.Init.{buffer_init}
use kernel_module_glowforge.Kernel.{ok}
use kernel_module_glowforge.Cnc.Run.{StartEnv, RunOptions, run_with_options}
use kernel_module_glowforge.Cnc.State.{no_faults}

-- 64 KiB; the head is two bytes before the last index, and one byte after it is written.
abbrev driver : CncState → Cnc
driver state =
    record (zeroed
      (record { fifo = record { in_ix = 1; out_ix = 0; mask = 65535 }; total_bytes = 5000 })) {
        state = state;
      }

abbrev memory : Memory
memory = record { size = 65536; byte_at = λ o. o % 100; is_mapped = true }

abbrev playing : Engine
playing = record {
  at_start = false;
  after_power = false;
  r2 = 0;
  lines = no_lines;
  lock = no_lines;
  inhibit = no_lines;
  x = 0;
  y = 0;
  z = 0;
  count = 0;
  head = 0xFFFFFFFE;
  tail = 1;
  direction = 1;
  countdown = 0;
  outputs = [];
}

abbrev fed : CncState → System
fed state = record { cnc = driver state; memory = memory; engine = playing }

abbrev two_more : Write
two_more = record {
  bytes = 0x11 ∷ 0x90 ∷ [];
  fetch_status = 0;
  stale = 0;
  copy_status = 0;
  copied = 2;
  publish_status = 0;
}

-- A fault after one byte of the copy.
abbrev cut_short : Write
cut_short = record two_more { copy_status = 14; copied = 1 }

-- A write, a byte, a write that is cut short, and six bytes: five and the end of the data.
abbrev feeding : List Step
feeding =
    writes two_more
    ∷ consumes_byte
    ∷ writes cut_short
    ∷ consumes_byte
    ∷ consumes_byte
    ∷ consumes_byte
    ∷ consumes_byte
    ∷ consumes_byte
    ∷ []

abbrev after : System
after = (run plain_kfifo copier feeding (fed disabled)).2

small : IsAllowed (writes two_more)
small = omega arith

small_cut : IsAllowed (writes cut_short)
small_cut = omega arith

fed-IsFed : (state : CncState) → IsFed plain_kfifo 65536 (fed state)
fed-IsFed state = record {
  turns_lem = refl;
  size_lem = refl;
  size_max = omega arith;
  mapped = refl;
  in_word = omega arith;
  head_word = omega arith;
  tail_word = omega arith;
  direction = inr refl;
  published = omega arith;
  filled = omega arith;
}

taken : (run plain_kfifo copier feeding (fed disabled)).0 ≡ 0x11 ∷ 0x90 ∷ []
unfolding run step write copy_bytes consume play_pulse play_power end_byte all_done
taken = refl

played : (run plain_kfifo copier feeding (fed disabled)).1 ≡ 34 ∷ 35 ∷ 0 ∷ 0x11 ∷ 0x90 ∷ []
unfolding run step write copy_bytes consume play_pulse play_power end_byte all_done
played = refl

plays_in_order_example :
    IsFed plain_kfifo 65536 after
    × (contents (fed disabled) ++ (run plain_kfifo copier feeding (fed disabled)).0
        ≡ (run plain_kfifo copier feeding (fed disabled)).1 ++ contents after)
plays_in_order_example =
    plays_in_order plain_kfifo copier 65536 feeding (fed disabled) (fed-IsFed disabled)
      (small, (tt, (small_cut, (tt, (tt, (tt, (tt, (tt, tt))))))))

-- A start whose registers are loaded, on a ring with a mebibyte after the module's parameter.
abbrev env : StartEnv
env = record {
  empty_fetch = record { status = 0; value = 0 };
  script_fetch_status = 0;
  script_intact = true;
  script_write_status = 0;
  backtrack_fetch = record { status = 0; value = 0 };
  regs_status = 0;
  inhibit_status = 0;
  was_powered = false;
  rail = record { is_on = false; status = 0 };
  rail_off = record { is_on = true; status = 0 };
  latch_level = 0;
  laser_bits = 6;
}

abbrev forward : RunOptions
forward = record {
  num_steps = 0;
  backward = false;
  accelerate = false;
  decelerate = false;
  preserve_power = false;
}

has_bytes : (is_empty plain_kfifo env.empty_fetch (driver idle)).0 ≡ false
unfolding is_empty
has_bytes = refl

job_completes_example :
    let (taken, played, t) =
      run plain_kfifo copier (starts env forward ∷ byte_steps 3) (fed idle) in
    let (r, c) = run_with_options plain_kfifo env forward (λ e. e) (λ e. e) (driver idle) in
    (r ≡ ok)
    × (c.state ≡ running)
    × (played ≡ contents (fed idle))
    × (t.engine.direction ≡ 0)
    × HasEnded (driver idle) (deliver t.engine.outputs c)
job_completes_example =
    job_completes plain_kfifo copier 65536 env forward (fed idle) (fed-IsFed idle)
      (record {
        script_fetched = refl;
        script_written = refl;
        regs_written = refl;
        inhibit_written = refl;
      })
      refl refl has_bytes refl refl

abbrev loaded : System
loaded = started plain_setup 0x1000 0x1000 1 (driver disabled).ring.fifo (λ o. 0) no_faults

-- The end of the data, a write, and a start that plays one byte of it.
abbrev first_job : List Step
first_job = consumes_byte ∷ writes two_more ∷ starts env forward ∷ consumes_byte ∷ []

first_byte : (run plain_kfifo copier first_job loaded).1 ≡ 0x11 ∷ []
unfolding run step write copy_bytes start_forward consume play_pulse play_power end_byte all_done
    buffer_init probe halvings
first_byte = refl

plays_what_it_takes_example :
    let (taken, played, t) = run plain_kfifo copier first_job loaded in
    ((buffer_init plain_setup 0x1000 0x1000 1 (driver disabled).ring.fifo).0 ≡ ok)
    × (taken ≡ played ++ contents t)
plays_what_it_takes_example =
    plays_what_it_takes plain_kfifo copier plain_setup 0x1000 0x1000 1 (driver disabled).ring.fifo
      (λ o. 0) no_faults first_job (ground arith) (ground arith) (tt, (small, (refl, (tt, tt))))

position_counts_example :
    let (taken, played, t) = run plain_kfifo copier first_job loaded in
    ShowsCounts (length played) (length taken) (get_position 0 t.engine t.cnc)
    × (length taken ≡ length played + length (contents t))
position_counts_example =
    position_counts plain_kfifo copier plain_setup 0x1000 0x1000 1 (driver disabled).ring.fifo
      (λ o. 0) no_faults first_job (ground arith) (ground arith) (tt, (small, (refl, (tt, tt))))
