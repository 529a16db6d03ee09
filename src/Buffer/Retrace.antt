-- ===== src/Buffer/Retrace.antt =====
-- How far a backward run may go, and what a write leaves of the played bytes. Engine.DeadStop and
-- Engine.Retrace say what the engine makes of it.
use kernel_module_glowforge.Base.{ℕ, ◌+◌, ◌-◌, ◌^◌, ◌≤◌, ◌<◌, ◌≡◌, true, arith, sub32, u32_mod, min}
use kernel_module_glowforge.Kernel.{Ret, ok}
use kernel_module_glowforge.Ring.{Kfifo, unplayed}
use kernel_module_glowforge.Backtrack.{decel_steps, max_steps, span}
use kernel_module_glowforge.Backtrack.Bounds.{max_steps-span, max_steps_bounds}
use kernel_module_glowforge.Cnc.State.{Cnc}
use kernel_module_glowforge.Cnc.Control.{get_ramp_rate_hz_per_s}
use kernel_module_glowforge.Cnc.Run.{StartEnv, RunOptions, publish_run}
use kernel_module_glowforge.Buffer.{
  sync_head, gap_size, Copy, count_of, add_user_data, backtrack_dead_stop,
}
use kernel_module_glowforge.Buffer.Fill.{FifoFits, add-succeeds}

-- The deceleration tail at the driver's rates.
abbrev pub tail : Cnc → ℕ
tail c = decel_steps c.step_freq (get_ramp_rate_hz_per_s c)

dead_stop_distance :
    (i o size total : ℕ)
    → i < u32_mod
    → o < u32_mod
    → size < u32_mod
    → sub32 i o ≤ size
    → sub32 i o ≤ total
    → sub32 o (sub32 i (span size total)) ≡ span size total - sub32 i o
unfolding span
dead_stop_distance i o size total hi ho hs u t = ground arith

module _ (k : Kfifo) (env : StartEnv) (o : RunOptions) (c : Cnc) where
  -- The publication of a backward run.
  abbrev published : Ret × Cnc
  published = publish_run k env (record o { backward = true }) c

  abbrev fetched : Cnc
  fetched = sync_head env.backtrack_fetch c

  published_lem :
      published.0 ≡ ok
      → 0 < o.num_steps
      → let d = fetched in
        (published.1.ring ≡ d.ring)
        × (tail published.1 ≡ tail d)
        × (o.num_steps
            ≤ max_steps (k.size d.ring.fifo) (unplayed d.ring.fifo) d.ring.total_bytes (tail d))
  unfolding publish_run get_ramp_rate_hz_per_s
  published_lem e n = ground arith

  -- Where a backward run is let through, the free-running index of the play position lies at least
  -- the run's steps and the whole deceleration tail ahead of the dead stop.
  pub backward_run_fits :
      FifoFits k fetched.ring.fifo
      → unplayed fetched.ring.fifo ≤ c.ring.total_bytes
      → 0 < o.num_steps
      → published.0 ≡ ok
      → o.num_steps + tail published.1
        ≤ sub32 published.1.ring.fifo.out_ix (backtrack_dead_stop k published.1)
  unfolding backtrack_dead_stop
  backward_run_fits f t n e =
      let d = fetched in
      let g = d.ring.fifo in
      let p = published_lem e n in
      let small : k.size g < u32_mod = omega (arith, f.size_max) in
      let far =
        dead_stop_distance g.in_ix g.out_ix (k.size g) d.ring.total_bytes f.in_word f.out_word small
          f.filled t in
      let long =
        max_steps-span (k.size g) (unplayed g) d.ring.total_bytes (tail d) small f.filled t in
      rw (p.0, p.1, far) (omega (arith, p.2, long))

-- After a write the ring still holds the played bytes of the gap: with as much played, a pause may
-- walk back over the gap, less the deceleration tail.
pub write_keeps_history :
    (k : Kfifo) (a : Copy) (count : ℕ) (c : Cnc) (n : ℕ)
    → FifoFits k (sync_head a.fetch c).ring.fifo
    → count + gap_size < u32_mod
    → c.ring.total_bytes + count < 2 ^ 64
    → unplayed (sync_head a.fetch c).ring.fifo ≤ c.ring.total_bytes
    → (add_user_data k a count c).0 ≡ count_of n
    → let d = (add_user_data k a count c).1 in
      min gap_size (d.ring.total_bytes - unplayed d.ring.fifo)
      ≤ max_steps
          (k.size (sync_head a.fetch c).ring.fifo)
          (unplayed d.ring.fifo)
          d.ring.total_bytes
          (tail d)
        + tail d
write_keeps_history k a count c n f fits t u e =
    let d = (add_user_data k a count c).1 in
    let s = add-succeeds k a count c n f fits e in
    (max_steps_bounds (k.size (sync_head a.fetch c).ring.fifo) (unplayed d.ring.fifo)
      d.ring.total_bytes (tail d) gap_size (omega arith) s.2 (omega arith)).2
