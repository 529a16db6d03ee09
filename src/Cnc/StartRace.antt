-- ===== src/Cnc/StartRace.antt =====
-- A stop that lands while a start is preparing.
use kernel_module_glowforge.Base.{
  ℕ, suc, ◌+◌, ◌%◌, ◌≤◌, ◌<◌, ◌≡◌, ◌≢◌, sym, ◌∙◌, Bool, false, not, ◌&&◌, if◌then◌else◌, ◌⊎◌, inl,
  inr, List, [], ◌∷◌, length, arith, u32_mod,
}
use kernel_module_glowforge.Kernel.{Call, fail, is_ok, Errno, sdma_event_disable}
use kernel_module_glowforge.Ring.{Kfifo, Fetch}
use kernel_module_glowforge.Cnc.State.{Cnc}
use kernel_module_glowforge.Cnc.Control.{Rail, power_off}
use kernel_module_glowforge.Cnc.Run.{
  StartEnv, RunOptions, start_run, run_commit, power_run, publish_run, verify_sdma_script,
}
use kernel_module_glowforge.Buffer.{is_empty}
use kernel_module_glowforge.Cnc.Event.{Event, ramp_tick, step, steps}

-- How often the engine's event was disabled: once by each stop of the driver.
abbrev pub stops_made : List Call → ℕ
stops_made [] = 0
stops_made (sdma_event_disable ∷ older) = suc (stops_made older)
stops_made (_ ∷ older) = stops_made older

-- An event stops the driver once at most, and then moves the generation by one.
step-stops :
    (k : Kfifo) (e : Event) (c : Cnc)
    → let d = step k e c in
      ((stops_made d.calls ≡ stops_made c.calls) × (d.stop_generation ≡ c.stop_generation))
      ⊎ ((stops_made d.calls ≡ suc (stops_made c.calls))
          × (d.stop_generation ≡ (c.stop_generation + 1) % u32_mod))
unfolding step
step-stops k ramp_tick c = ground arith
step-stops k _ c = ground arith

-- What a sequence of events does to the count of stops and to the generation.
record Moved (c d : Cnc) (bound : ℕ) : Type 0 where
  moved : ℕ
  at_most : moved ≤ bound
  counted : stops_made d.calls ≡ stops_made c.calls + moved
  generation : d.stop_generation ≡ (c.stop_generation + moved) % u32_mod

steps-Moved :
    (k : Kfifo) (es : List Event) (c : Cnc)
    → c.stop_generation < u32_mod
    → Moved c (steps k es c) (length es)
unfolding steps
steps-Moved k [] c g = record {
  moved = 0;
  at_most = omega arith;
  counted = omega arith;
  generation = omega arith;
}
steps-Moved k (e ∷ es) c g = elim (step-stops k e c) [
  | inl (n, h) ↦
      let m = steps-Moved k es (step k e c) (omega arith) in
      record {
        moved = m.moved;
        at_most = omega arith;
        counted = omega arith;
        generation = omega arith;
      }
  | inr (n, h) ↦
      let m = steps-Moved k es (step k e c) (omega arith) in
      record {
        moved = suc m.moved;
        at_most = omega arith;
        counted = omega arith;
        generation = omega arith;
      }
]

stops-generation :
    (k : Kfifo) (es : List Event) (c : Cnc)
    → c.stop_generation < u32_mod
    → length es < u32_mod
    → stops_made c.calls < stops_made (steps k es c).calls
    → (steps k es c).stop_generation ≢ c.stop_generation
stops-generation k es c g l h = let m = steps-Moved k es c g in omega arith

-- The driver when a start has prepared the engine and switched the power on.
abbrev pub prepared : Kfifo → StartEnv → RunOptions → Cnc → Cnc
prepared k env opts c =
    power_run k env opts
      (publish_run k env opts (verify_sdma_script env (is_empty k env.empty_fetch c).1).1).1

prepared_lem :
    (k : Kfifo) (env : StartEnv) (opts : RunOptions) (c : Cnc)
    → let d = prepared k env opts c in (d.stop_generation ≡ c.stop_generation) × (d.state ≡ c.state)
unfolding power_run publish_run verify_sdma_script is_empty
prepared_lem k env opts c = ground arith

state-power_off : (rail : Rail) (c : Cnc) → (power_off rail c).state ≡ c.state
unfolding power_off
state-power_off rail c = ground arith

state-is_empty : (k : Kfifo) (f : Fetch) (c : Cnc) → (is_empty k f c).1.state ≡ c.state
unfolding is_empty
state-is_empty k f c = ground arith

state-verify : (env : StartEnv) (c : Cnc) → (verify_sdma_script env c).1.state ≡ c.state
unfolding verify_sdma_script
state-verify env c = ground arith

state-publish :
    (k : Kfifo) (env : StartEnv) (opts : RunOptions) (c : Cnc)
    → (publish_run k env opts c).1.state ≡ c.state
unfolding publish_run
state-publish k env opts c = ground arith

commit_refuses :
    (env : StartEnv) (opts : RunOptions) (gen : ℕ) (d : Cnc)
    → d.stop_generation ≢ gen
    → run_commit env opts gen d ≡ (fail Errno.eperm, d)
unfolding run_commit
commit_refuses env opts gen d h = ground arith

-- The start finds data and a script, and loads the engine, so that it comes to its commit.
abbrev pub comes_to_commit : Kfifo → StartEnv → RunOptions → Cnc → Bool
comes_to_commit k env opts c =
    let (empty, c1) = is_empty k env.empty_fetch c in
    let (verified, c2) = verify_sdma_script env c1 in
    not empty && is_ok verified && is_ok (publish_run k env opts c2).0

-- A start during whose preparation anything stops the driver (a halt, a disable, a fault, the end of
-- the data or of a ramp) fails, and leaves the driver in the state that the other events left; one
-- that fails before its commit leaves it in the state that it found. The generation is a word of 32
-- bits, and fewer than 2 ^ 32 events come in during the preparation.
pub stopped_start_fails :
    (k : Kfifo) (env : StartEnv) (opts : RunOptions) (es : List Event) (c : Cnc)
    → c.stop_generation < u32_mod
    → length es < u32_mod
    → let d = prepared k env opts c in
      stops_made d.calls < stops_made (steps k es d).calls
      → let r = start_run k env opts c.stop_generation (steps k es) c in
        (is_ok r.0 ≡ false)
        × (r.1.state ≡ (if comes_to_commit k env opts c then (steps k es d).state else c.state))
unfolding start_run
stopped_start_fails k env opts es c g l h =
    let c1 = (is_empty k env.empty_fetch c).1 in
    let c2 = (verify_sdma_script env c1).1 in
    let d = prepared k env opts c in
    let p = prepared_lem k env opts c in
    let moved = stops-generation k es d (rw p.0 g) l h in
    ground (
      arith,
      commit_refuses env opts c.stop_generation (steps k es d) (λ e. moved (e ∙ sym p.0)),
      state-is_empty k env.empty_fetch c,
      state-verify env c1,
      state-publish k env opts c2,
      state-power_off env.rail_off (steps k es d),
    )
