-- ===== src/Cnc/Position.antt =====
-- The position attribute (`cnc_get_position`, src/cnc.c): the words of the engine's context from
-- scratch[0] on, with the total number of bytes enqueued put in.
use kernel_module_glowforge.Base.{ℕ, Option, none, some, ◌==◌, if◌then◌else◌}
use kernel_module_glowforge.Buffer.{total_bytes}
use kernel_module_glowforge.Cnc.State.{Cnc}
use kernel_module_glowforge.Engine.{Engine}

-- `struct cnc_position`; the reserved words are those that follow in the context.
pub record CncPosition : Type 0 where
  pub x_step_pos : ℕ
  pub y_step_pos : ℕ
  pub z_step_pos : ℕ
  pub bytes_processed : ℕ
  pub bytes_total : ℕ
  pub reserved0 : ℕ
  pub reserved1 : ℕ
  pub reserved2 : ℕ

-- `cnc_get_position`, where `status` is what fetching the context reports; `none` is that error.
unfoldable pub get_position : ℕ → Engine → Cnc → Option CncPosition
unfolding total_bytes
get_position status e c =
    let pos : CncPosition = record {
      x_step_pos = e.x;
      y_step_pos = e.y;
      z_step_pos = e.z;
      bytes_processed = e.count;
      bytes_total = total_bytes c;
      reserved0 = e.tail;
      reserved1 = e.direction;
      reserved2 = e.countdown;
    } in
    if status == 0 then some pos else none
