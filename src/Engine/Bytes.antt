-- ===== src/Engine/Bytes.antt =====
-- One byte of the ring on the engine (asm/sdma.asm, from `fifo_consume_byte_no_iflag_clear` on).
use kernel_module_glowforge.Base.{
  ℕ, ◌/◌, ◌%◌, ◌^◌, Bool, true, false, not, ◌&&◌, ◌||◌, ◌∷◌, leb, ◌==◌, if◌then◌else◌, add32, sub32,
}
use kernel_module_glowforge.Engine.{
  Lines, no_lines, Engine, writes_lines, writes_duty, sets_mailbox, interrupts,
}

abbrev pub bit : ℕ → ℕ → Bool
bit n byte = byte / 2 ^ n % 2 == 1

-- The bits of a pulse byte, whose bit 7 is clear.
pub record Pulse : Type 0 where
  pub x_step : Bool
  pub x_dir : Bool
  pub y_step : Bool
  pub y_dir : Bool
  pub laser : Bool
  pub z_step : Bool
  pub z_dir : Bool

abbrev pub pulse_of : ℕ → Pulse
pulse_of byte = record {
  x_step = bit 0 byte;
  x_dir = bit 1 byte;
  y_step = bit 2 byte;
  y_dir = bit 3 byte;
  laser = bit 4 byte;
  z_step = bit 5 byte;
  z_dir = bit 6 byte;
}

-- A direction is negative where its bit 31 is set.
abbrev pub is_backward : ℕ → Bool
is_backward direction = leb (2 ^ 31) direction

-- A pulse played backward: the directions inverted, the laser off.
abbrev pub reversed : Pulse → Pulse
reversed p = record p {
  x_dir = not p.x_dir;
  y_dir = not p.y_dir;
  z_dir = not p.z_dir;
  laser = false;
}

-- `andn`
abbrev pub and_not : Lines → Lines → Lines
and_not l m = record {
  x_dir = l.x_dir && not m.x_dir;
  y1_dir = l.y1_dir && not m.y1_dir;
  y2_dir = l.y2_dir && not m.y2_dir;
  z_dir = l.z_dir && not m.z_dir;
  x_step = l.x_step && not m.x_step;
  y1_step = l.y1_step && not m.y1_step;
  y2_step = l.y2_step && not m.y2_step;
  z_step = l.z_step && not m.z_step;
  laser_enable = l.laser_enable && not m.laser_enable;
  laser_on_head = l.laser_on_head && not m.laser_on_head;
}

-- `do_x_dir` to `set_dir`
abbrev pub with_dirs : Pulse → Lines → Lines
with_dirs p l = record l {
  x_dir = not p.x_dir;
  y1_dir = not p.y_dir;
  y2_dir = p.y_dir;
  z_dir = p.z_dir;
}

-- `do_x_step` to `set_step_and_laser`
abbrev pub with_steps : Pulse → Lines → Lines
with_steps p l = record l {
  x_step = p.x_step || l.x_step;
  y1_step = p.y_step || l.y1_step;
  y2_step = p.y_step || l.y2_step;
  z_step = p.z_step || l.z_step;
  laser_enable = p.laser;
  laser_on_head = p.laser;
}

-- `clear_step_bits`
abbrev pub without_steps : Lines → Lines
without_steps l = record l { x_step = false; y1_step = false; y2_step = false; z_step = false }

-- `upd_x_pos` to `upd_z_pos2`: a position counter, by whether it counts up.
abbrev pub moved : Bool → Bool → ℕ → ℕ
moved step up n = if step then (if up then add32 n 1 else add32 (sub32 n 2) 1) else n

-- The pulse path: directions, steps and laser, positions, and the steps cleared again.
unfoldable pub play_pulse : Pulse → Engine → Engine
play_pulse p e =
    let dirs = with_dirs p e.lines in
    let steps = and_not (and_not (with_steps p dirs) e.lock) e.inhibit in
    let cleared = without_steps steps in
    record e {
      lines = cleared;
      x = moved p.x_step (not p.x_dir) e.x;
      y = moved p.y_step p.y_dir e.y;
      z = moved p.z_step p.z_dir e.z;
      after_power = false;
      outputs = writes_lines cleared ∷ writes_lines steps ∷ writes_lines dirs ∷ e.outputs;
    }

-- `endbyte`, with `waypoint_hit`
unfoldable pub end_byte : Engine → Engine
end_byte e =
    let d = record e {
      r2 = e.direction;
      count = add32 e.count e.direction;
      head = add32 e.head e.direction;
    } in
    if e.countdown == 0
    then d
    else if e.countdown == 1
    then record d { countdown = 0; inhibit = no_lines; outputs = interrupts ∷ e.outputs }
    else record d { countdown = sub32 e.countdown 1 }

-- `alldone`: the lines are forced safe, and the end is signalled once, and again every 255 times.
abbrev pub all_safe : Lines → Lines
all_safe l = record (without_steps l) { laser_enable = false; laser_on_head = false }

unfoldable pub all_done : Engine → Engine
all_done e =
    let safe = all_safe e.lines in
    let d = record e { at_start = true; lines = safe; outputs = writes_lines safe ∷ e.outputs } in
    let r2 = add32 e.r2 1 in
    if not (e.direction == 0)
    then record d {
      direction = 0;
      countdown = 0;
      r2 = 0;
      outputs = interrupts ∷ sets_mailbox ∷ d.outputs;
    }
    else if r2 == 255
    then record d { r2 = 0; outputs = interrupts ∷ d.outputs }
    else record d { r2 = r2 }

-- The ring in memory: its size, a power of two, the bytes by their offset, and whether the script was
-- given an address.
pub record Memory : Type 0 where
  pub size : ℕ
  pub byte_at : ℕ → ℕ
  pub is_mapped : Bool

abbrev pub has_data : Memory → Engine → Bool
has_data m e = not (e.direction == 0) && m.is_mapped && not (e.head % m.size == e.tail % m.size)

-- The byte under the head, and the pulse that it is in the engine's direction.
abbrev pub byte_under : Memory → Engine → ℕ
byte_under m e = m.byte_at (e.head % m.size)

abbrev pub pulse_under : Memory → Engine → Pulse
pulse_under m e =
    let p = pulse_of (byte_under m e) in if is_backward e.direction then reversed p else p

-- `do_power`: the answer is whether the next byte is taken at once.
unfoldable pub play_power : ℕ → Engine → Bool × Engine
play_power byte e =
    if e.after_power
    then (false, end_byte e)
    else if is_backward e.direction
    then (true, end_byte e)
    else (
      true,
      end_byte (record e { after_power = true; outputs = writes_duty (byte % 128) ∷ e.outputs }),
    )

-- One byte, or the end of the data; the answer is whether the next byte is taken at once.
unfoldable pub consume : Memory → Engine → Bool × Engine
consume m e =
    if not (has_data m e)
    then (false, all_done e)
    else if bit 7 (byte_under m e)
    then play_power (byte_under m e) e
    else (false, end_byte (play_pulse (pulse_under m e) e))
