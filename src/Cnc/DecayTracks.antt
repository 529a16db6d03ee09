-- ===== src/Cnc/DecayTracks.antt =====
-- The decay mode that is read back describes the line.
use kernel_module_glowforge.Base.{
  ℕ, ◌≡◌, Option, none, some, List, [], ◌∷◌, ◌==◌, if◌then◌else◌, arith,
}
use kernel_module_glowforge.Pins
use kernel_module_glowforge.Io.{Drive, input, output, drive}
use kernel_module_glowforge.Ring.{Ring, Kfifo}
use kernel_module_glowforge.Cnc.State.{Cnc, Faults}
use kernel_module_glowforge.Cnc.Fault.{probe}
use kernel_module_glowforge.Cnc.Event.{Event, sets_decay, step}
use kernel_module_glowforge.Cnc.Decay.{
  Decays, set_decay_mode, get_decay_mode, probe_decays, mode_decay_slow, mode_decay_mixed,
  mode_decay_fast,
}

-- The mode of a line; a line that was never given a direction is an input, as it was requested.
abbrev pub mode_of : Option Drive → Option ℕ
mode_of none = some mode_decay_mixed
mode_of (some input) = some mode_decay_mixed
mode_of (some (output v)) =
    if v == 0 then some mode_decay_slow else if v == 1 then some mode_decay_fast else none

abbrev pub Tracks : Decays → Type 0
Tracks d =
    (get_decay_mode d 0 ≡ mode_of (drive Pins.x_decay d.cnc.calls))
    × (get_decay_mode d 1 ≡ mode_of (drive Pins.y_decay d.cnc.calls))

-- The event sets no decay mode.
abbrev IsOther : Event → Type 0
IsOther (sets_decay axis mode) = ⊥
IsOther _ = Unit

module _ (k : Kfifo) where
  keeps_x :
      (e : Event) (c : Cnc)
      → IsOther e
      → drive Pins.x_decay (step k e c).calls ≡ drive Pins.x_decay c.calls
  unfolding step
  keeps_x (sets_decay axis mode) c o = elim o [ ]
  keeps_x _ c o = ground arith

  keeps_y :
      (e : Event) (c : Cnc)
      → IsOther e
      → drive Pins.y_decay (step k e c).calls ≡ drive Pins.y_decay c.calls
  unfolding step
  keeps_y (sets_decay axis mode) c o = elim o [ ]
  keeps_y _ c o = ground arith

  -- An event, with the member `decay_mode`
  unfoldable pub decay_step : Event → Decays → Decays
  unfolding set_decay_mode
  decay_step (sets_decay axis mode) d = (set_decay_mode axis mode d).1
  decay_step e d = record d { cnc = step k e d.cnc }

  unfoldable pub decay_steps : List Event → Decays → Decays
  decay_steps [] d = d
  decay_steps (e ∷ es) d = decay_steps es (decay_step e d)

  decay_step-Tracks : (e : Event) (d : Decays) → Tracks d → Tracks (decay_step e d)
  unfolding decay_step get_decay_mode
  decay_step-Tracks (sets_decay axis mode) d t = ground arith
  decay_step-Tracks e d t = rw (keeps_x e d.cnc tt, keeps_y e d.cnc tt) t

  decay_steps-Tracks : (es : List Event) (d : Decays) → Tracks d → Tracks (decay_steps es d)
  unfolding decay_steps
  decay_steps-Tracks [] d t = t
  decay_steps-Tracks (e ∷ es) d t = decay_steps-Tracks es (decay_step e d) (decay_step-Tracks e d t)

  probe-Tracks : (live : Faults) (ring : Ring) → Tracks (probe_decays live ring)
  unfolding probe_decays get_decay_mode probe
  probe-Tracks live ring = ground arith

  -- Whatever happens after the probe, in any order, the decay mode that an axis reads back is the one
  -- that its line is in: slow where it is driven low, fast where it is driven high, and mixed where it
  -- is an input, also where a call only sets the level of the line.
  pub decay_reads_back :
      (live : Faults) (ring : Ring) (es : List Event)
      → Tracks (decay_steps es (probe_decays live ring))
  decay_reads_back live ring es = decay_steps-Tracks es _ (probe-Tracks live ring)
