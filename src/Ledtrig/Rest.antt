-- ===== src/Ledtrig/Rest.antt =====
-- The simulation comes to rest only at its target, and rest is kept; the speed as it reads back.
use kernel_module_glowforge.Base.{
  ℕ, zero, suc, ◌∙◌, ◌*◌, ◌/◌, ◌^◌, ◌≤◌, ◌<◌, ◌≡◌, ◌⊎◌, refl, false, arith, get_or,
}
use kernel_module_glowforge.Kernel.{ok, is_ok}
use kernel_module_glowforge.Ledtrig.{correction_table, update_pulser}
use kernel_module_glowforge.Ledtrig.Simulation.{
  Smooth, dt, fixmul, fixdiv2, fixdiv4, clamped_value, timestep_locked, speed_store, speed_show,
  speed_max,
}

-- At its target, and not moving; the LED does not pulse.
pub record AtRest (s : Smooth) : Type 0 where
  pub still_velocity : s.velocity ≡ 0
  pub still_accel : s.accel ≡ 0
  pub at_target : s.target ≡ s.value
  pub shown : s.brightness ≡ get_or correction_table (clamped_value s.value) 0

zero_times : (a : ℕ) → fixmul 0 a ≡ 0
unfolding fixmul
zero_times a = ground arith

times_zero : (a : ℕ) → fixmul a 0 ≡ 0
unfolding fixmul
times_zero a = ground arith

half_zero : fixdiv2 0 ≡ 0
unfolding fixdiv2
half_zero = refl

-- What a step at rest leaves.
abbrev pub IsKept : Smooth → Smooth → Type 0
IsKept s d =
    AtRest d
    × ((update_pulser d.pulser).0 ≡ false)
    × (d.value ≡ s.value)
    × (d.brightness ≡ s.brightness)
    × (d.is_armed ≡ s.is_armed)

rest-IsKept :
    (s : Smooth)
    → AtRest s
    → s.value < 2 ^ 32
    → (update_pulser s.pulser).0 ≡ false
    → IsKept s (timestep_locked s)
unfolding timestep_locked
rest-IsKept s r w p =
    let k = fixdiv4 (fixmul s.c s.c) in
    ground (
      arith,
      r.still_velocity,
      r.still_accel,
      r.at_target,
      r.shown,
      zero_times k,
      zero_times dt,
      times_zero s.c,
      half_zero,
    )

unfoldable pub timesteps : ℕ → Smooth → Smooth
timesteps zero s = s
timesteps (suc n) s = timesteps n (timestep_locked s)

pub rests-IsKept :
    (n : ℕ) (s : Smooth)
    → AtRest s
    → s.value < 2 ^ 32
    → (update_pulser s.pulser).0 ≡ false
    → IsKept s (timesteps n s)
unfolding timesteps
rests-IsKept zero s r w p = (r, p, refl, refl, refl)
rests-IsKept (suc n) s r w p =
    let h = rest-IsKept s r w p in
    let t = rests-IsKept n (timestep_locked s) h.0 (rw h.2 w) h.1 in
    (t.0, t.1, t.2 ∙ h.2, t.3 ∙ h.3, t.4 ∙ h.4)

-- A speed is stored where it is 1 to 160, and reads back cut to a multiple of 4; any other is refused
-- with nothing changed.
pub speed_store-show :
    (speed : ℕ) (s : Smooth)
    → let (ret, d) = speed_store speed s in
      ((1 ≤ speed) × (speed ≤ speed_max) × (ret ≡ ok) × (speed_show d ≡ speed / 4 * 4))
      ⊎ (((speed ≡ 0) ⊎ (speed_max < speed)) × (is_ok ret ≡ false) × (d ≡ s))
unfolding speed_store speed_show timestep_locked
speed_store-show speed s = ground arith
