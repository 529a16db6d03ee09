-- ===== src/Engine.antt =====
-- The script of the SDMA engine (asm/sdma.asm), which plays the ring: the registers it keeps and its
-- path over one byte. Engine.Tick has the loop over the bytes of one timer event.
pub mod Bytes
pub mod Tick
pub mod DeadStop
pub mod Ends
pub mod Laser
pub mod Retrace
pub mod Notify
mod Tests
use kernel_module_glowforge.Base.{ℕ, Bool, false, List}

-- The lines of the GPIO word that the script writes, and of the words it masks with.
pub record Lines : Type 0 where
  pub x_dir : Bool
  pub y1_dir : Bool
  pub y2_dir : Bool
  pub z_dir : Bool
  pub x_step : Bool
  pub y1_step : Bool
  pub y2_step : Bool
  pub z_step : Bool
  pub laser_enable : Bool
  pub laser_on_head : Bool

-- What the script does to the outside: a GPIO word, a duty cycle, the end-of-data mailbox, and the
-- interrupt of the host.
pub data Output : Type 0 where
  writes_lines : Lines → Output
  writes_duty : ℕ → Output
  sets_mailbox interrupts : Output

-- The registers and the words of the channel context. Words have 32 bits; the script keeps bit 1 of
-- r1 in `after_power` and the GPIO word, r3, in `lines`.
pub record Engine : Type 0 where
  pub at_start : Bool  -- the next event is taken at `start`
  pub after_power : Bool
  pub r2 : ℕ
  pub lines : Lines
  pub lock : Lines
  pub inhibit : Lines
  pub x : ℕ  -- scratch[0]
  pub y : ℕ  -- scratch[1]
  pub z : ℕ  -- scratch[2]
  pub count : ℕ  -- scratch[3]
  pub head : ℕ  -- scratch[4]
  pub tail : ℕ  -- scratch[5]
  pub direction : ℕ  -- scratch[6]
  pub countdown : ℕ  -- scratch[7], the waypoint
  pub outputs : List Output

-- `r3` at `start`, and a mask that is cleared.
abbrev pub no_lines : Lines
no_lines = record {
  x_dir = false;
  y1_dir = false;
  y2_dir = false;
  z_dir = false;
  x_step = false;
  y1_step = false;
  y2_step = false;
  z_step = false;
  laser_enable = false;
  laser_on_head = false;
}
