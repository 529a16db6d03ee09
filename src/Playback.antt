-- ===== src/Playback.antt =====
-- The path of a pulse byte, from a write of the feeder (`cnc_buffer_add_user_data`,
-- src/cnc_buffer.c) through the ring in memory to the engine (asm/sdma.asm).
pub mod Window
pub mod Fed
pub mod Writes
pub mod Plays
pub mod Starts
pub mod Order
pub mod Ends
pub mod Plain
pub mod Start
pub mod Counts
pub mod Committed
pub mod Job
mod Tests
use kernel_module_glowforge.Base.{
  ℕ, ◌+◌, ◌*◌, ◌^◌, ◌<◌, ◌≤◌, ◌≡◌, ◌≢◌, Bool, true, false, not, ◌&&◌, List, [], ◌∷◌, ◌++◌, ltb,
  ◌==◌, if◌then◌else◌, add32, length, get_or, take, ◌%◌,
}
use kernel_module_glowforge.Ring.{Kfifo}
use kernel_module_glowforge.Buffer.{Copy, add_user_data, gap_size, sync_head}
use kernel_module_glowforge.Cnc.State.{Cnc, is_running}
use kernel_module_glowforge.Cnc.Run.{StartEnv, RunOptions, publish_run}
use kernel_module_glowforge.Engine.{Engine}
use kernel_module_glowforge.Engine.Bytes.{Memory, consume, has_data, byte_under}

-- `kfifo_from_user` on the bytes in memory: the ring's bytes by their offset, its size, the write
-- index, and the bytes to copy, which go round at the size. A kfifo's size divides 2 ^ 32.
pub record Copier : Type 0 where
  pub copy_in : (ℕ → ℕ) → ℕ → ℕ → List ℕ → ℕ → ℕ
  pub copied_lem :
      (turns : ℕ) (bytes : ℕ → ℕ) (size i : ℕ) (new : List ℕ) (j : ℕ)
      → turns * size ≡ 2 ^ 32
      → j < length new
      → length new ≤ size
      → copy_in bytes size i new (add32 i j % size) ≡ get_or new j 0
  pub kept_lem :
      (bytes : ℕ → ℕ) (size i : ℕ) (new : List ℕ) (o : ℕ)
      → ((j : ℕ) → j < length new → add32 i j % size ≢ o)
      → copy_in bytes size i new o ≡ bytes o

pub record System : Type 0 where
  pub cnc : Cnc
  pub memory : Memory
  pub engine : Engine

-- A write, and what the kernel answers to it; `stale` is what a fetch of the play position that fails
-- leaves.
pub record Write : Type 0 where
  pub bytes : List ℕ
  pub fetch_status : ℕ
  pub stale : ℕ
  pub copy_status : ℕ
  pub copied : ℕ
  pub publish_status : ℕ

abbrev pub answers : Write → Engine → Copy
answers w e = record {
  fetch = record {
    status = w.fetch_status;
    value = if w.fetch_status == 0 then e.head else w.stale;
  };
  copy_status = w.copy_status;
  copied = w.copied;
  publish_status = w.publish_status;
}

pub data Step : Type 0 where
  writes : Write → Step
  starts : StartEnv → RunOptions → Step
  consumes_byte : Step

module _ (k : Kfifo) (cp : Copier) where
  -- The write gets as far as the copy: the checks before it.
  abbrev pub reaches_copy : Write → System → Bool
  reaches_copy w s =
      let d = sync_head (answers w s.engine).fetch s.cnc in
      not (is_running s.cnc.state && s.cnc.running_backward)
      && (w.fetch_status == 0)
      && not (ltb (k.avail d.ring.fifo) (add32 (length w.bytes) gap_size))

  -- All of it is copied.
  abbrev pub is_taken : Write → System → Bool
  is_taken w s = reaches_copy w s && (w.copy_status == 0) && (w.copied == length w.bytes)

  -- A write of the feeder: the bytes that are copied go into the memory, and a write that is taken
  -- publishes the new index to the engine, unless that fails.
  unfoldable pub write : Write → System → System
  unfolding add_user_data
  write w s =
      let c = (add_user_data k (answers w s.engine) (length w.bytes) s.cnc).1 in
      let m = s.memory in
      let e = s.engine in
      record {
        cnc = c;
        memory =
            if reaches_copy w s
            then record m {
              byte_at = cp.copy_in m.byte_at m.size s.cnc.ring.fifo.in_ix (take w.copied w.bytes);
            }
            else m;
        engine =
            if is_taken w s && (w.publish_status == 0)
            then record e { tail = c.ring.fifo.in_ix }
            else e;
      }

  -- A start that plays forward: the registers of the engine, unless loading them fails.
  unfoldable pub start_forward : StartEnv → RunOptions → System → System
  unfolding publish_run
  start_forward env opts s =
      let e = s.engine in
      record s {
        cnc = (publish_run k env opts s.cnc).1;
        engine =
            if env.regs_status == 0
            then record e {
              tail = s.cnc.ring.fifo.in_ix;
              direction = 1;
              countdown = opts.num_steps;
            }
            else e;
      }

  -- A step, with the bytes that it takes from the feeder and those that the engine plays.
  unfoldable pub step : Step → System → List ℕ × List ℕ × System
  unfolding write start_forward consume
  step (writes w) s = ((if is_taken w s then w.bytes else []), [], write w s)
  step (starts env opts) s = ([], [], start_forward env opts s)
  step consumes_byte s = (
    [],
    (if has_data s.memory s.engine then byte_under s.memory s.engine ∷ [] else []),
    record s { engine = (consume s.memory s.engine).1 },
  )

  unfoldable pub run : List Step → System → List ℕ × List ℕ × System
  run [] s = ([], [], s)
  run (a ∷ rest) s =
      let (taken, played, t) = step a s in
      let (later_taken, later_played, u) = run rest t in
      (taken ++ later_taken, played ++ later_played, u)
