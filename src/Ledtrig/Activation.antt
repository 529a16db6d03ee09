-- ===== src/Ledtrig/Activation.antt =====
-- The trigger on an LED that it is set for (`smooth_activate`, `smooth_deactivate`,
-- src/ledtrig_smooth.c).
use kernel_module_glowforge.Base.{
  ℕ, ◌<◌, ◌≡◌, Bool, true, false, not, Option, none, some, List, [], ◌∷◌, ◌==◌, if◌then◌else◌, refl,
  ◌∙◌, sym, ap, arith,
}
use kernel_module_glowforge.Kernel.{Ret, ok, fail, Errno, of_status}
use kernel_module_glowforge.Ledtrig.{pos, update_pulser, value_from_raw_brightness}
use kernel_module_glowforge.Ledtrig.Lookup.{corrected, value_from_raw_brightness_lem}
use kernel_module_glowforge.Ledtrig.Simulation.{Smooth, fixed_int, clamped_value}
use kernel_module_glowforge.Ledtrig.Rest.{AtRest, timesteps, rests-IsKept}

-- The data that `smooth_activate` sets up, zeroed but for these, on an LED of a raw brightness.
abbrev pub activated : ℕ → ℕ → Smooth
activated raw_brightness value = record {
  pulser = record { target = 0; pulse_on_count = 0; pulse_off_count = 0; pulse_counter = pos 0 };
  c = fixed_int 16;
  target = fixed_int value;
  value = fixed_int value;
  velocity = 0;
  accel = 0;
  brightness = raw_brightness;
  is_armed = false;
}

-- The rest of `smooth_activate`, once the search is done
abbrev pub activate_at : Bool → ℕ → ℕ → Option ℕ → Option (Ret × Option Smooth)
activate_at allocated status raw_brightness none = none
activate_at allocated status raw_brightness (some value) = some (
    if not allocated
    then (fail Errno.enomem, none)
    else if status == 0
    then (ok, some (activated raw_brightness value))
    else (of_status status, none))

-- `smooth_activate`: whether the data is allocated, and the status of creating the attributes; `none`
-- is a search that runs out of fuel.
unfoldable pub smooth_activate : Bool → ℕ → ℕ → Option (Ret × Option Smooth)
smooth_activate allocated status raw_brightness =
    activate_at allocated status raw_brightness (value_from_raw_brightness raw_brightness)

-- What `smooth_deactivate` gives back, in its order.
pub data DeactivateCall : Type 0 where
  remove_group delete_timer clear_data free_data : DeactivateCall

abbrev pub smooth_deactivate : Option Smooth → List DeactivateCall
smooth_deactivate none = []
smooth_deactivate (some data') = remove_group ∷ delete_timer ∷ clear_data ∷ free_data ∷ []

clamped-fixed_int : (i : ℕ) → i < 256 → clamped_value (fixed_int i) ≡ i
unfolding clamped_value
clamped-fixed_int i l = ground arith

activated-AtRest : (raw i : ℕ) → i < 256 → corrected i ≡ raw → AtRest (activated raw i)
activated-AtRest raw i l e = record {
  still_velocity = refl;
  still_accel = refl;
  at_target = refl;
  shown = sym e ∙ ap corrected (sym (clamped-fixed_int i l));
}

unpulsed : (raw i : ℕ) → (update_pulser (activated raw i).pulser).0 ≡ false
unfolding update_pulser
unpulsed raw i = refl

activation :
    (raw i : ℕ)
    → value_from_raw_brightness raw ≡ some i
    → smooth_activate true 0 raw ≡ some (ok, some (activated raw i))
unfolding smooth_activate
activation raw i e = ap (activate_at true 0 raw) e

-- Setting the trigger for an LED does not change its light: where the brightness is one of the gamma
-- table's, and the data is allocated and the attributes created, the simulation starts at rest, and
-- however many steps of it are taken, the brightness that is set stays, and the timer is not armed.
pub activation_keeps_light :
    (raw_brightness j n : ℕ)
    → j < 256
    → corrected j ≡ raw_brightness
    → (s : Smooth) × (smooth_activate true 0 raw_brightness ≡ some (ok, some s))
      × ((timesteps n s).brightness ≡ raw_brightness)
      × ((timesteps n s).is_armed ≡ false)
activation_keeps_light raw_brightness j n l e =
    let (i, found, near, exact) = value_from_raw_brightness_lem raw_brightness in
    let same = exact j l e in
    let rest = activated-AtRest raw_brightness i near.in_table same in
    let k =
      rests-IsKept n (activated raw_brightness i) rest (omega (arith, near.in_table))
        (unpulsed raw_brightness i) in
    (activated raw_brightness i, activation raw_brightness i found, k.3, k.4)
