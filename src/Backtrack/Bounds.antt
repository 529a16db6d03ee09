-- ===== src/Backtrack/Bounds.antt =====
-- What the bounds of a backward run promise.
use kernel_module_glowforge.Base.{
  ℕ, ◌+◌, ◌-◌, ◌*◌, ◌/◌, ◌%◌, ◌≤◌, ◌<◌, ◌≡◌, min, arith, ◌==◌, if◌then◌else◌, u32_mod,
}
use native.Mathlib.Nat.{mod-eq_of_lt, mul-le-mul_left}
use kernel_module_glowforge.Backtrack.{decel_steps, max_steps, span}

-- The longest backward run is what lies between the play position and the dead stop, less the
-- deceleration tail: `span` bytes behind the write index the engine comes to a dead stop, and
-- `unplayed` bytes behind it is the play position. It holds while the ring holds the unplayed bytes
-- and they are among those enqueued.
pub max_steps-span :
    (ring_size unplayed total tail : ℕ)
    → ring_size < u32_mod
    → unplayed ≤ ring_size
    → unplayed ≤ total
    → max_steps ring_size unplayed total tail ≡ span ring_size total - unplayed - tail
unfolding max_steps span
max_steps-span ring_size unplayed total tail r u t = ground arith

-- The length of a run is at most what was played and what is resident; where the writer leaves a gap,
-- a job that has played the gap and the tail can always be walked back over the gap less the tail.
pub max_steps_bounds :
    (ring_size unplayed total tail gap : ℕ)
    → ring_size < u32_mod
    → unplayed + gap ≤ ring_size
    → unplayed ≤ total
    → let m = max_steps ring_size unplayed total tail in
      (m ≤ total - unplayed) × (m ≤ ring_size - unplayed) × (min gap (total - unplayed) ≤ m + tail)
unfolding max_steps
max_steps_bounds ring_size unplayed total tail gap r u t = ground arith

-- The two roundings of the tail: the frequency up to kHz, the rate down to kHz/s.
tail_rounds :
    (f r k m s : ℕ)
    → f ≤ 1000 * k
    → 1000 * m ≤ r
    → f * k < 2 * m * (s + 1)
    → f * f < 2 * r * (s + 1)
tail_rounds f r k m s hk hm h =
    let a : f * f ≤ f * (1000 * k) = mul-le-mul_left f hk in
    let b : (s + 1) * (1000 * m) ≤ (s + 1) * r = mul-le-mul_left (s + 1) hm in omega arith

below_quotient : (n d : ℕ) → 0 < d → n < d * (n / d + 1)
below_quotient n d h = grind arith

product_fits : (f k : ℕ) → f ≤ 200000 → k ≤ 200 → f * k < u32_mod
product_fits f k hf hk = let a : f * k ≤ 200000 * k = grind arith in omega arith

-- For every step frequency and ramp rate that the driver accepts the products of the computation do
-- not wrap, and the tail is not understated by a whole step: the true length v^2/2a is less than the
-- computed one plus one.
pub decel_steps_bound :
    (step_freq ramp_rate : ℕ)
    → step_freq ≤ 200000
    → 1000 ≤ ramp_rate
    → ramp_rate ≤ 500000
    → step_freq * step_freq < 2 * ramp_rate * (decel_steps step_freq ramp_rate + 1)
unfolding decel_steps
decel_steps_bound f r hf hr hr' =
    let k : ℕ = (f + 999) / 1000 in
    let m : ℕ = r / 1000 in
    let no_wrap : (f + 999) % u32_mod ≡ f + 999 = omega arith in
    let fits : f * k % u32_mod ≡ f * k = mod-eq_of_lt (product_fits f k hf (omega arith)) in
    let rate : (if r / 1000 == 0 then 1 else r / 1000) ≡ m = ground arith in
    let twice : 2 * m % u32_mod ≡ 2 * m = omega arith in
    rw (no_wrap, rate, fits, twice)
      (tail_rounds f r k m (f * k / (2 * m)) (omega arith) (omega arith)
        (below_quotient (f * k) (2 * m) (omega arith)))
