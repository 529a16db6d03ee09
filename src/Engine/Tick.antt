-- ===== src/Engine/Tick.antt =====
-- One event of the step timer on the engine: from `start`, or a run of bytes that ends.
use kernel_module_glowforge.Base.{ℕ, ◌≡◌, zero, suc, Bool, true, false, if◌then◌else◌, arith}
use kernel_module_glowforge.Engine.{Engine, no_lines}
use kernel_module_glowforge.Engine.Bytes.{Memory, consume}

-- `start`: nothing is played.
unfoldable pub start : Engine → Engine
start e = record e { at_start = false; after_power = false; lines = no_lines }

module _ (m : Memory) where
  -- The bytes taken at once, `n` at most; the answer is whether the last of them ended the event.
  unfoldable pub consume_run : ℕ → Engine → Bool × Engine
  consume_run zero e = (false, e)
  consume_run (suc n) e =
      let rest = consume_run n (consume m e).1 in
      if (consume m e).0 then rest else (true, (consume m e).1)

  -- An event: a run of bytes is at most the ring and the end of the data.
  unfoldable pub tick : Engine → Engine
  tick e = if e.at_start then start e else (consume_run (suc m.size) e).1

  unfoldable pub ticks : ℕ → Engine → Engine
  ticks zero e = e
  ticks (suc n) e = ticks n (tick e)

  -- The bytes taken one after another, whatever the events.
  unfoldable pub consumes : ℕ → Engine → Engine
  consumes zero e = e
  consumes (suc n) e = consumes n (consume m e).1

  -- A byte that ends the event ends the run.
  pub consume_run-ends :
      (n : ℕ) (e : Engine)
      → (consume m e).0 ≡ false
      → consume_run (suc n) e ≡ (true, (consume m e).1)
  unfolding consume_run
  consume_run-ends n e h = ground arith

  pub consume_run-goes_on :
      (n : ℕ) (e : Engine)
      → (consume m e).0 ≡ true
      → consume_run (suc n) e ≡ consume_run n (consume m e).1
  unfolding consume_run
  consume_run-goes_on n e h = ground arith
