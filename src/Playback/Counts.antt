-- ===== src/Playback/Counts.antt =====
-- The byte counts of the position attribute, over any steps from the probe on.
use kernel_module_glowforge.Base.{
  ℕ, ◌+◌, ◌%◌, ◌^◌, ◌≡◌, ◌≢◌, inl, inr, true, false, List, [], ◌∷◌, Option, some, length,
  length-append, zero_plus, none, ltb, if◌then◌else◌, refl, ap, ◌∙◌, add32, All, Bool-cases, arith,
}
use kernel_module_glowforge.Ring.{Fifo, Kfifo}
use kernel_module_glowforge.Buffer.{total_bytes}
use kernel_module_glowforge.Buffer.Init.{FifoSetup, buffer_init}
use kernel_module_glowforge.Cnc.State.{Faults}
use kernel_module_glowforge.Cnc.Run.{StartEnv, RunOptions}
use kernel_module_glowforge.Cnc.Position.{CncPosition, get_position}
use kernel_module_glowforge.Engine.{Engine, writes_duty}
use kernel_module_glowforge.Engine.Bytes.{
  Memory, consume, has_data, byte_under, end_byte, play_power, play_pulse, pulse_under, all_done,
}
use kernel_module_glowforge.Playback.{
  Copier, System, Write, is_taken, write, Step, writes, starts, consumes_byte, start_forward, step,
  run,
}
use kernel_module_glowforge.Playback.Fed.{contents, IsFed, IsAllowed}
use kernel_module_glowforge.Playback.Plays.{has_data_iff}
use kernel_module_glowforge.Playback.Starts.{start_lem}
use kernel_module_glowforge.Playback.Order.{step_in_order}
use kernel_module_glowforge.Playback.Start.{started, started-IsFed, probe-ring, plays_what_it_takes}

-- The count moves by the direction with each byte, and stays where there is no data.
counts_byte : (e : Engine) → (end_byte e).count ≡ add32 e.count e.direction
unfolding end_byte
counts_byte e = ground arith

counts_power : (byte : ℕ) (e : Engine) → (play_power byte e).1.count ≡ add32 e.count e.direction
unfolding play_power
counts_power byte e = ground (
  arith,
  counts_byte e,
  counts_byte (record e { after_power = true; outputs = writes_duty (byte % 128) ∷ e.outputs }),
)

count-consume :
    (m : Memory) (e : Engine)
    → (has_data m e ≡ true → (consume m e).1.count ≡ add32 e.count e.direction)
      × (has_data m e ≡ false → (consume m e).1.count ≡ e.count)
unfolding consume play_pulse all_done
count-consume m e =
    let d = play_pulse (pulse_under m e) e in
    ground (arith, counts_power (byte_under m e) e, counts_byte d)

-- The counts after `played` bytes of the engine and `taken` bytes of the feeder.
abbrev Counted : ℕ → ℕ → System → Type 0
Counted taken played s =
    (s.engine.count ≡ played % 2 ^ 32) × (s.cnc.ring.total_bytes ≡ taken % 2 ^ 64)

module _ (k : Kfifo) (cp : Copier) where
  count-write :
      (w : Write) (s : System)
      → ((write k cp w s).engine.count ≡ s.engine.count)
        × (is_taken k cp w s ≡ true
            → (write k cp w s).cnc.ring.total_bytes
              ≡ (s.cnc.ring.total_bytes + length w.bytes) % 2 ^ 64)
        × (is_taken k cp w s ≡ false
            → (write k cp w s).cnc.ring.total_bytes ≡ s.cnc.ring.total_bytes)
  unfolding write
  count-write w s = ground arith

  count-start :
      (env : StartEnv) (opts : RunOptions) (s : System)
      → (start_forward k cp env opts s).engine.count ≡ s.engine.count
  unfolding start_forward
  count-start env opts s = ground arith

  added : (total n l : ℕ) → total ≡ n % 2 ^ 64 → (total + l) % 2 ^ 64 ≡ (n + l) % 2 ^ 64
  added total n l h = omega arith

  step_counts :
      (turns : ℕ) (a : Step) (s : System) (n m : ℕ)
      → IsFed k turns s
      → IsAllowed a
      → Counted n m s
      → let (taken, played, t) = step k cp a s in Counted (n + length taken) (m + length played) t
  unfolding step
  step_counts turns (writes w) s n m v f h =
      let c = count-write w s in
      elim (Bool-cases (is_taken k cp w s)) [
        | inl y ↦ (
          ground (arith, c.0, h.0),
          rw y (c.1 y ∙ added s.cnc.ring.total_bytes n (length w.bytes) h.1),
        )
        | inr q ↦ (ground (arith, c.0, h.0), rw q (ground (arith, c.2 q, h.1)))
      ]
  step_counts turns (starts env opts) s n m v f h =
      let (ring, head, moved) = start_lem k cp env opts s f in
      (ground (arith, count-start env opts s, h.0), rw ring (ground (arith, h.1)))
  step_counts turns consumes_byte s n m v f h =
      let c = count-consume s.memory s.engine in
      elim (Bool-cases (has_data s.memory s.engine)) [
        | inl y ↦
            let d = ((has_data_iff k turns s v).0 y).0 in
            (c.0 y ∙ rw (y, d, h.0) (omega arith), ground (arith, h.1))
        | inr q ↦ (c.1 q ∙ rw (q, h.0) (omega arith), ground (arith, h.1))
      ]

  run_counts :
      (turns : ℕ) (steps : List Step) (s : System) (n m : ℕ)
      → IsFed k turns s
      → All IsAllowed steps
      → Counted n m s
      → let (taken, played, t) = run k cp steps s in
        Counted (n + length taken) (m + length played) t
  unfolding run
  run_counts turns [] s n m v f h = (rw h.0 (omega arith), rw h.1 (omega arith))
  run_counts turns (a ∷ rest) s n m v f h =
      let (taken, played, t) = step k cp a s in
      let (later_taken, later_played, u) = run k cp rest t in
      let one = step_counts turns a s n m v f.0 h in
      let more =
        run_counts turns rest t (n + length taken) (m + length played)
          (step_in_order k cp turns a s v f.0).0 f.1 one in
      let lt = length-append taken later_taken in
      let lp = length-append played later_played in
      (more.0 ∙ ap (λ x. x % 2 ^ 32) (omega arith), more.1 ∙ ap (λ x. x % 2 ^ 64) (omega arith))

-- What the position attribute shows: the bytes processed and the bytes enqueued, which saturate.
abbrev pub ShowsCounts : ℕ → ℕ → Option CncPosition → Type 0
ShowsCounts played taken none = ⊥
ShowsCounts played taken (some pos) =
    (pos.bytes_processed ≡ played % 2 ^ 32)
    × (pos.bytes_total
        ≡ (if ltb 0xFFFFFFFF (taken % 2 ^ 64) then 0xFFFFFFFF else taken % 2 ^ 64 % 2 ^ 32))

counts_shown :
    (n m : ℕ) (s : System) → Counted n m s → ShowsCounts m n (get_position 0 s.engine s.cnc)
unfolding get_position total_bytes
counts_shown n m s h = (h.0, rw h.1 refl)

module _ (k : Kfifo) (cp : Copier) (s : FifoSetup) (virt phys ring_mb : ℕ) (f : Fifo)
    (bytes : ℕ → ℕ) (live : Faults) where
  started_counts : virt ≢ 0 → Counted 0 0 (started s virt phys ring_mb f bytes live)
  unfolding buffer_init
  started_counts v = ground (arith, probe-ring live (buffer_init s virt phys ring_mb f).2)

  -- From the probe on, over any writes, starts that play forward and bytes of the engine, the position
  -- attribute shows the number of bytes that the engine played, modulo 2 ^ 32, and the number of bytes
  -- that the driver took, modulo 2 ^ 64 and saturated at 32 bits; and what was taken and not played is
  -- what is still to play. The ring's memory is allocated, the context is fetched without an error, and
  -- no write asks for more bytes than an index and the gap have room for.
  pub position_counts :
      (steps : List Step)
      → virt ≢ 0
      → phys ≢ 0
      → All IsAllowed steps
      → let (taken, played, t) = run k cp steps (started s virt phys ring_mb f bytes live) in
        ShowsCounts (length played) (length taken) (get_position 0 t.engine t.cnc)
        × (length taken ≡ length played + length (contents t))
  position_counts steps v p fit =
      let start = started s virt phys ring_mb f bytes live in
      let (taken, played, t) = run k cp steps start in
      let fed = started-IsFed k s virt phys ring_mb f bytes live v p in
      let c = run_counts k cp _ steps start 0 0 fed fit (started_counts v) in
      let all = (plays_what_it_takes k cp s virt phys ring_mb f bytes live steps v p fit).1 in
      (
        counts_shown (length taken) (length played) t
            (c.0 ∙ ap (λ x. x % 2 ^ 32) (zero_plus _), c.1 ∙ ap (λ x. x % 2 ^ 64) (zero_plus _)),
        ap length all ∙ length-append played (contents t),
      )
