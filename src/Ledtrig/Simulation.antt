-- ===== src/Ledtrig/Simulation.antt =====
-- The fixed-point simulation of a brightness (src/ledtrig_smooth.c). A `fixed` is its 32-bit word, with
-- 12 bits of fraction, in two's complement.
use kernel_module_glowforge.Base.{
  ℕ, ◌+◌, ◌-◌, ◌*◌, ◌/◌, ◌%◌, ◌^◌, Bool, true, false, not, ◌&&◌, ◌||◌, ltb, leb, ◌==◌,
  if◌then◌else◌, add32, sub32, get_or,
}
use kernel_module_glowforge.Kernel.{Ret, ok, fail, Errno}
use kernel_module_glowforge.Ledtrig.{Pulser, is_at, update_pulser, correction_table}

abbrev pub is_negative : ℕ → Bool
is_negative a = leb (2 ^ 31) a

abbrev pub fixed_int : ℕ → ℕ
fixed_int i = i * 4096

-- A word sign-extended to 64 bits.
abbrev pub widened : ℕ → ℕ
widened a = if is_negative a then a + 0xFFFFFFFF00000000 else a

-- `fixmul`: the 64-bit product, shifted right, and cut to 32 bits
unfoldable pub fixmul : ℕ → ℕ → ℕ
fixmul a b = widened a * widened b % 2 ^ 64 / 2 ^ 12 % 2 ^ 32

-- `fixdiv2` and `fixdiv4`: arithmetic shifts
unfoldable pub fixdiv2 : ℕ → ℕ
fixdiv2 a = if is_negative a then a / 2 + 2 ^ 31 else a / 2

unfoldable pub fixdiv4 : ℕ → ℕ
fixdiv4 a = if is_negative a then a / 4 + 3 * 2 ^ 30 else a / 4

abbrev pub magnitude : ℕ → ℕ
magnitude d = if is_negative d then 2 ^ 32 - d else d

-- `fixeq`; the difference that has no magnitude in 32 bits stays negative, and is below any tolerance.
unfoldable pub fixeq : ℕ → ℕ → ℕ → Bool
fixeq a b tolerance = let d = sub32 a b in (d == 2 ^ 31) || leb (magnitude d) tolerance

-- The timestep, 0.02 s cut to the fraction bits, and 0.0625.
abbrev pub dt : ℕ
dt = 81

abbrev pub epsilon : ℕ
epsilon = 256

-- `struct ledtrig_smooth_data`, the timer as whether it is armed, and the brightness that is set.
pub record Smooth : Type 0 where
  pub target : ℕ
  pub c : ℕ
  pub value : ℕ
  pub velocity : ℕ
  pub accel : ℕ
  pub pulser : Pulser
  pub is_armed : Bool
  pub brightness : ℕ

-- The integer part of the value as the 16-bit `clamped_value`, clamped.
unfoldable pub clamped_value : ℕ → ℕ
clamped_value value =
    let i = value / 2 ^ 12 % 2 ^ 16 in if leb (2 ^ 15) i then 0 else if ltb 255 i then 255 else i

-- The target that `update_pulser` leaves.
abbrev pub pulsed_target : Smooth → ℕ
pulsed_target s =
    let p = s.pulser in
    if (p.pulse_on_count == 0) || (p.pulse_off_count == 0)
    then s.target
    else if is_at 0 p.pulse_counter
    then fixed_int 255
    else if is_at p.pulse_on_count p.pulse_counter
    then fixed_int 0
    else s.target

-- The integration: the new acceleration, the velocity half-way, and what comes of them.
abbrev pub integrate : ℕ → Smooth → Smooth
integrate target s =
    let k = fixdiv4 (fixmul s.c s.c) in
    let fspring = fixmul (sub32 target s.value) k in
    let new_accel = sub32 fspring (fixmul s.c s.velocity) in
    let half_v = add32 s.velocity (fixmul (fixdiv2 s.accel) dt) in
    record s {
      target = target;
      value = add32 s.value (fixmul half_v dt);
      velocity = add32 half_v (fixmul (fixdiv2 new_accel) dt);
      accel = new_accel;
    }

-- The end of a step: the brightness, and rest or the next step.
abbrev pub settle : Bool → Smooth → Smooth
settle pulsing s =
    let lit = record s { brightness = get_or correction_table (clamped_value s.value) 0 } in
    if fixeq s.target s.value epsilon && not pulsing
    then record lit { target = s.value; velocity = 0; accel = 0 }
    else record lit { is_armed = true }

-- `timestep_locked`
unfoldable pub timestep_locked : Smooth → Smooth
unfolding update_pulser fixeq
timestep_locked s =
    let (pulsing, p) = update_pulser s.pulser in
    settle pulsing (integrate (pulsed_target s) (record s { pulser = p }))

-- `smooth_timer_cb`, once the timer has fired
unfoldable pub smooth_timer_cb : Smooth → Smooth
smooth_timer_cb s = timestep_locked (record s { is_armed = false })

-- `target_store` and `speed_store`, of a number; `speed_show`, of the 8-bit number that it prints
unfoldable pub target_store : ℕ → Smooth → Ret × Smooth
target_store new_target s =
    if ltb 255 new_target
    then (fail Errno.einval, s)
    else (ok, timestep_locked (record s { target = fixed_int new_target }))

abbrev pub speed_max : ℕ
speed_max = 160

unfoldable pub speed_store : ℕ → Smooth → Ret × Smooth
speed_store new_speed s =
    if (new_speed == 0) || ltb speed_max new_speed
    then (fail Errno.einval, s)
    else (ok, timestep_locked (record s { c = new_speed * 2 ^ 10 }))

unfoldable pub speed_show : Smooth → ℕ
speed_show s = s.c / 2 ^ 12 * 4 % 2 ^ 8
