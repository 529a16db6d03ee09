-- ===== src/Cnc/Sampler.antt =====
-- The free-running sampler of the laser's lines (src/cnc.c).
use kernel_module_glowforge.Base.{
  ℕ, suc, ◌+◌, ◌≡◌, List, [], ◌∷◌, length, leb, ◌==◌, if◌then◌else◌, arith,
}

abbrev pub laser_sample_window : ℕ
laser_sample_window = 255

-- The sampler's members of `struct cnc`.
pub record Sampler : Type 0 where
  pub laser_on_low_count : ℕ
  pub laser_pgood_high_count : ℕ
  pub laser_sample_count : ℕ
  pub laser_on_sampled : ℕ
  pub laser_pgood_sampled : ℕ

-- What the two lines read at one sample.
pub record Sample : Type 0 where
  pub laser_on_readback : ℕ
  pub laser_pgood : ℕ

-- `laser_sample_timer_cb`
unfoldable pub laser_sample_timer_cb : Sample → Sampler → Sampler
laser_sample_timer_cb x s =
    let low = if x.laser_on_readback == 0 then suc s.laser_on_low_count else s.laser_on_low_count in
    let high =
      if x.laser_pgood == 0 then s.laser_pgood_high_count else suc s.laser_pgood_high_count in
    if leb laser_sample_window (suc s.laser_sample_count)
    then record {
      laser_on_low_count = 0;
      laser_pgood_high_count = 0;
      laser_sample_count = 0;
      laser_on_sampled = low;
      laser_pgood_sampled = high;
    }
    else record s {
      laser_on_low_count = low;
      laser_pgood_high_count = high;
      laser_sample_count = suc s.laser_sample_count;
    }

-- Samples in order, oldest first.
unfoldable pub samples : List Sample → Sampler → Sampler
samples [] s = s
samples (x ∷ xs) s = samples xs (laser_sample_timer_cb x s)

-- How many samples read the laser-on line low, and the power-good line high.
abbrev pub lows : List Sample → ℕ
lows [] = 0
lows (x ∷ xs) = if x.laser_on_readback == 0 then suc (lows xs) else lows xs

abbrev pub highs : List Sample → ℕ
highs [] = 0
highs (x ∷ xs) = if x.laser_pgood == 0 then highs xs else suc (highs xs)

-- The rest of a window, counted on.
abbrev counted : Sampler → List Sample → Sampler
counted s xs = record {
  laser_on_low_count = 0;
  laser_pgood_high_count = 0;
  laser_sample_count = 0;
  laser_on_sampled = s.laser_on_low_count + lows xs;
  laser_pgood_sampled = s.laser_pgood_high_count + highs xs;
}

rest_of_window :
    (x : Sample) (xs : List Sample) (s : Sampler)
    → s.laser_sample_count + length (x ∷ xs) ≡ laser_sample_window
    → samples (x ∷ xs) s ≡ counted s (x ∷ xs)
unfolding samples laser_sample_timer_cb
rest_of_window x [] s h = ground arith
rest_of_window x (y ∷ ys) s h =
    let i = rest_of_window y ys (laser_sample_timer_cb x s) (ground arith) in ground arith

-- A window of 255 samples from cleared counters latches how many of its samples read the laser-on
-- line low and the power-good line high, and clears the counters for the next window.
pub window_lem :
    (xs : List Sample) (s : Sampler)
    → s.laser_on_low_count ≡ 0
    → s.laser_pgood_high_count ≡ 0
    → s.laser_sample_count ≡ 0
    → length xs ≡ laser_sample_window
    → samples xs s ≡ record {
      laser_on_low_count = 0;
      laser_pgood_high_count = 0;
      laser_sample_count = 0;
      laser_on_sampled = lows xs;
      laser_pgood_sampled = highs xs;
    }
window_lem [] s a b c d = ground arith
window_lem (x ∷ xs) s a b c d = let h = rest_of_window x xs s (ground arith) in ground arith
