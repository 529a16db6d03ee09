-- ===== src/Engine/Tests.antt =====
-- A small ring, engines over it, and the theorems at them.
use kernel_module_glowforge.Base.{
  ℕ, ◌<◌, ◌≤◌, ◌^◌, ◌≡◌, ◌⊎◌, inl, true, false, List, [], ◌∷◌, ◌==◌, if◌then◌else◌, refl, add32,
  arith,
}
use kernel_module_glowforge.Ring.{unplayed}
use kernel_module_glowforge.Ring.Plain.{plain_kfifo}
use kernel_module_glowforge.Backtrack.{span}
use kernel_module_glowforge.Buffer.{backtrack_dead_stop}
use kernel_module_glowforge.Buffer.Fill.{FifoFits}
use kernel_module_glowforge.Cnc.State.{Cnc, idle}
use kernel_module_glowforge.Cnc.Fault.{zeroed}
use kernel_module_glowforge.Engine.{Engine, no_lines, Output, writes_duty}
use kernel_module_glowforge.Engine.Bytes.{
  Memory, consume, end_byte, play_pulse, play_power, has_data,
}
use kernel_module_glowforge.Engine.Tick.{consume_run, tick, ticks, consumes}
use kernel_module_glowforge.Engine.Laser.{IsRetracing, IsInhibited, all_dark, laser_stays_off}
use kernel_module_glowforge.Engine.Retrace.{
  axis_x, position, shift, byte_of, plays, turned, retrace_lem,
}
use kernel_module_glowforge.Engine.Ends.{event_ends}
use kernel_module_glowforge.Engine.DeadStop.{dead_stop_lem}

-- An X step with the laser on, two power levels, X and Y steps, and X steps the other way.
abbrev bytes : ℕ → ℕ
bytes i =
    if i == 0
    then 0x11
    else if i == 1
    then 0x90
    else if i == 2
    then 0xa0
    else if i == 3
    then 0x05
    else 0x03

abbrev memory : Memory
memory = record { size = 8; byte_at = bytes; is_mapped = true }

abbrev loaded : Engine
loaded = record {
  at_start = false;
  after_power = false;
  r2 = 0;
  lines = no_lines;
  lock = no_lines;
  inhibit = no_lines;
  x = 100;
  y = 100;
  z = 0;
  count = 0;
  head = 0;
  tail = 6;
  direction = 1;
  countdown = 0;
  outputs = [];
}

-- The second of two power levels is passed over: its duty is not set, in this event or the next.
abbrev duties : List Output → List ℕ
duties [] = []
duties (writes_duty d ∷ older) = d ∷ duties older
duties (_ ∷ older) = duties older

second_level_is_dropped : duties (ticks memory 4 loaded).outputs ≡ 0x10 ∷ []
unfolding ticks tick consume_run consume end_byte play_pulse play_power
second_level_is_dropped = refl

-- X went up at the first byte and at the fourth. A retrace of four takes the fourth back, and the
-- fifth, which steps down and was not played, but not the first.
back_two_off : (consumes memory 4 (turned 0 (consumes memory 4 loaded))).x ≡ 102
unfolding consumes consume end_byte play_pulse play_power
back_two_off = refl

plays_there : plays memory 4 loaded ≡ true
unfolding consume end_byte play_pulse play_power
plays_there = refl

plays_back : plays memory 4 (turned 0 (consumes memory 4 loaded)) ≡ true
unfolding consumes consume end_byte play_pulse play_power
plays_back = refl

retrace_lem_example :
    let f = consumes memory 4 loaded in
    let d = consumes memory 4 (turned 0 f) in
    (d.head ≡ 0)
    × (add32 (position axis_x d) (shift axis_x (byte_of memory f.head))
        ≡ add32 (position axis_x loaded) (shift axis_x (byte_of memory 0)))
retrace_lem_example = retrace_lem memory axis_x 4 loaded 0 refl (omega arith) plays_there plays_back

event_ends_example : (consume_run memory 9 loaded).0 ≡ true
event_ends_example = event_ends memory (2 ^ 29) loaded refl (inl (omega arith))

-- Both laser lines are inhibited for two bytes.
abbrev resuming : Engine
resuming = record loaded {
  inhibit = record no_lines { laser_enable = true; laser_on_head = true };
  countdown = 2;
}

laser_stays_off_example :
    (IsRetracing resuming → all_dark (consumes memory 2 resuming).outputs ≡ true)
    × (IsInhibited resuming
        → 2 ≤ resuming.countdown
        → resuming.countdown < 2 ^ 32
        → all_dark (consumes memory 2 resuming).outputs ≡ true)
laser_stays_off_example = laser_stays_off memory 2 resuming (refl, refl)

-- The laser fires at the same byte where nothing is inhibited.
fires : all_dark (consumes memory 1 loaded).outputs ≡ false
unfolding consumes consume end_byte play_pulse
fires = refl

abbrev drained : Engine
drained = record loaded { head = 6 }

-- The ring has wrapped, and all of it is played.
abbrev played_out : Cnc
played_out =
    record (zeroed
      (record { fifo = record { in_ix = 20; out_ix = 20; mask = 7 }; total_bytes = 20 })) {
        state = idle;
      }

abbrev retracing : Engine
retracing = record loaded { head = 20; tail = 12; direction = 0xFFFFFFFF }

played_out-FifoFits : FifoFits plain_kfifo played_out.ring.fifo
played_out-FifoFits = record {
  in_word = omega arith;
  out_word = omega arith;
  size_max = omega arith;
  filled = omega arith;
}

dead_stop_there : retracing.tail ≡ backtrack_dead_stop plain_kfifo played_out
unfolding backtrack_dead_stop span
dead_stop_there = refl

dead_stop_lem_example :
    (unplayed played_out.ring.fifo ≡ 0 → 8 ≤ 20 → has_data memory retracing ≡ false)
    × ((0 < unplayed played_out.ring.fifo) ⊎ (20 < 8) → has_data memory retracing ≡ true)
dead_stop_lem_example =
    dead_stop_lem memory plain_kfifo played_out retracing (2 ^ 29) refl refl played_out-FifoFits
      (omega arith) (omega arith) refl refl refl dead_stop_there
