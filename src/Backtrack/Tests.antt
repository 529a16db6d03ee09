-- ===== src/Backtrack/Tests.antt =====
-- The bounds of a backward run at concrete rings.
use kernel_module_glowforge.Base.{◌+◌, ◌-◌, ◌*◌, ◌≤◌, ◌<◌, ◌≡◌, refl, min, arith}
use kernel_module_glowforge.Backtrack.{decel_steps, max_steps, span}
use kernel_module_glowforge.Backtrack.Bounds.{max_steps-span, max_steps_bounds, decel_steps_bound}

-- The default rates: 10 kHz at 125 kHz/s.
default_tail : decel_steps 10000 125000 ≡ 400
unfolding decel_steps
default_tail = refl

-- The tail is cut to a whole number of steps: here v^2/2a is 45.45.
tail_is_cut : decel_steps 1000 11000 ≡ 45
unfolding decel_steps
tail_is_cut = refl

-- A 32 MiB ring that a live feed of 100 MB has wrapped, with 20000 bytes to play.
wrapped_ring : max_steps 33554432 20000 100000000 400 ≡ 33534032
unfolding max_steps
wrapped_ring = refl

a_job_once_round : max_steps 33554432 20000 100000000 400 ≡ span 33554432 100000000 - 20000 - 400
a_job_once_round =
    max_steps-span 33554432 20000 100000000 400 (omega arith) (omega arith) (omega arith)

bounds_at_feed :
    let m = max_steps 33554432 20000 100000 400 in
    (m ≤ 100000 - 20000) × (m ≤ 33554432 - 20000) × (min 32768 (100000 - 20000) ≤ m + 400)
bounds_at_feed =
    max_steps_bounds 33554432 20000 100000 400 32768 (omega arith) (omega arith) (omega arith)

tail_at_feed : 10000 * 10000 < 2 * 125000 * (decel_steps 10000 125000 + 1)
tail_at_feed = decel_steps_bound 10000 125000 (omega arith) (omega arith) (omega arith)
