-- ===== src/Ledtrig/Tests.antt =====
-- The LED trigger at concrete inputs.
use kernel_module_glowforge.Base.{◌≤◌, ◌<◌, ◌≡◌, ◌⊎◌, true, false, refl, some, arith, ℕ}
use kernel_module_glowforge.Ledtrig.{
  Pulser, pos, pulse_on_store, search_from, value_from_raw_brightness, set_pulse_periods,
}
use kernel_module_glowforge.Ledtrig.Period.{updates, CounterFits, periods-CounterFits, pulse_period}
use kernel_module_glowforge.Kernel.{ok, is_ok}
use kernel_module_glowforge.Ledtrig.Simulation.{
  Smooth, fixed_int, timestep_locked, speed_store, speed_show, speed_max, fixmul, fixdiv2, fixdiv4,
  clamped_value,
}
use kernel_module_glowforge.Ledtrig.Rest.{timesteps, speed_store-show}
use kernel_module_glowforge.Ledtrig.Activation.{smooth_activate, activation_keeps_light}
use kernel_module_glowforge.Ledtrig.Lookup.{Nearest, corrected, value_from_raw_brightness_lem}

-- Three updates on, two off.
abbrev blinking : Pulser
blinking = record { target = 0; pulse_on_count = 3; pulse_off_count = 2; pulse_counter = pos 0 }

store_60_ms : (pulse_on_store 79 blinking).1 ≡ blinking
unfolding pulse_on_store
store_60_ms = refl

-- A brightness that the table does not have is found at the next lower entry as well: 44 at the
-- index of 43, whose next entry is 45.
looks_down : (value_from_raw_brightness 44 ≡ some 61) × (corrected 61 ≡ 43)
unfolding value_from_raw_brightness search_from
looks_down = (refl, refl)

CounterFits-blinking : CounterFits (updates 7 (set_pulse_periods 1 5 blinking).1)
CounterFits-blinking = periods-CounterFits 1 5 7 blinking

two_of_each :
    (0 < 2 → 2 ≤ 3 → (updates 2 blinking).target ≡ 255)
    × (3 < 2 → 2 ≤ 5 → (updates 2 blinking).target ≡ 0)
    × ((updates 5 blinking).pulse_counter ≡ pos 0)
two_of_each = pulse_period 2 blinking (ground arith) (ground arith) refl

lookup_of_523 :
    (i : ℕ) × (value_from_raw_brightness 523 ≡ some i)
    × Nearest corrected 256 523 i
    × ((j : ℕ) → j < 256 → corrected j ≡ 523 → corrected i ≡ 523)
lookup_of_523 = value_from_raw_brightness_lem 523

-- A fade from dark to full at the default speed.
abbrev dark : Smooth
dark = record {
  target = fixed_int 255;
  c = fixed_int 16;
  value = 0;
  velocity = 0;
  accel = 0;
  pulser = record { target = 255; pulse_on_count = 0; pulse_off_count = 0; pulse_counter = pos 0 };
  is_armed = false;
  brightness = 0;
}

-- It is at rest after 76 steps, a second and a half, at the brightness of the entry 254.
fades_in : ((timesteps 76 dark).velocity ≡ 0) × ((timesteps 76 dark).brightness ≡ 1014)
unfolding timesteps timestep_locked fixmul fixdiv2 fixdiv4 clamped_value
fades_in = (refl, refl)

abbrev the_speed : ℕ
the_speed = 66

speed_of_66 :
    let (ret, d) = speed_store 66 dark in
    ((1 ≤ 66) × (66 ≤ speed_max) × (ret ≡ ok) × (speed_show d ≡ 64))
    ⊎ (((the_speed ≡ 0) ⊎ (speed_max < 66)) × (is_ok ret ≡ false) × (d ≡ dark))
speed_of_66 = speed_store-show the_speed dark

activation_keeps_light_example :
    (s : Smooth) × (smooth_activate true 0 523 ≡ some (ok, some s))
    × ((timesteps 50 s).brightness ≡ 523)
    × ((timesteps 50 s).is_armed ≡ false)
activation_keeps_light_example = activation_keeps_light 523 188 50 (ground arith) refl
