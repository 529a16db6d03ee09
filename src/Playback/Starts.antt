-- ===== src/Playback/Starts.antt =====
-- What a start that plays forward does to the bytes that are still to play.
use kernel_module_glowforge.Base.{ℕ, false, ◌⊎◌, ◌≡◌, refl, arith}
use kernel_module_glowforge.Ring.{Kfifo}
use kernel_module_glowforge.Playback.{Copier, System, start_forward}
use kernel_module_glowforge.Cnc.Run.{StartEnv, RunOptions}
use kernel_module_glowforge.Playback.Fed.{contents, IsFed}

module _ (k : Kfifo) (cp : Copier) where
  pub start_lem :
      (env : StartEnv) (opts : RunOptions) (s : System)
      → opts.backward ≡ false
      → let t = start_forward k cp env opts s in
        (t.cnc.ring ≡ s.cnc.ring)
        × (t.engine.head ≡ s.engine.head)
        × (((t.engine.direction ≡ s.engine.direction) × (t.engine.tail ≡ s.engine.tail))
            ⊎ ((t.engine.direction ≡ 1) × (t.engine.tail ≡ s.cnc.ring.fifo.in_ix)))
  unfolding start_forward
  start_lem env opts s b = ground arith

  memory-start :
      (env : StartEnv) (opts : RunOptions) (s : System)
      → (start_forward k cp env opts s).memory ≡ s.memory
  unfolding start_forward
  memory-start env opts s = refl

  pub start_contents :
      (env : StartEnv) (opts : RunOptions) (s : System)
      → opts.backward ≡ false
      → contents s ≡ contents (start_forward k cp env opts s)
  start_contents env opts s b =
      let (ring, head, moved) = start_lem env opts s b in
      rw (ring, head, memory-start env opts s) refl

  pub start-IsFed :
      (turns : ℕ) (env : StartEnv) (opts : RunOptions) (s : System)
      → IsFed k turns s
      → opts.backward ≡ false
      → IsFed k turns (start_forward k cp env opts s)
  start-IsFed turns env opts s v b =
      let (ring, head, moved) = start_lem env opts s b in
      let m = memory-start env opts s in
      record {
        turns_lem = rw m v.turns_lem;
        size_lem = rw (m, ring) v.size_lem;
        size_max = rw m v.size_max;
        mapped = rw m v.mapped;
        in_word = rw ring v.in_word;
        head_word = rw head v.head_word;
        tail_word = ground (arith, moved, v.tail_word, v.in_word);
        direction = ground (arith, moved, v.direction);
        published = rw (ring, head) (ground (arith, moved, v.published));
        filled = rw (ring, head, m) v.filled;
      }
