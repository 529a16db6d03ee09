-- ===== src/Interlock/Line.antt =====
-- The interlock line of the stepper driver: the policy drives it through `cnc_interlock_drive`
-- (src/cnc.c), and the driver does everything else around it.
use kernel_module_glowforge.Base.{
  ℕ, ◌<◌, ◌≡◌, ◌≢◌, ◌↔◌, refl, ◌∙◌, ap, false, Option, none, some, List, [], ◌∷◌, if◌then◌else◌,
  All, arith,
}
use kernel_module_glowforge.Pins
use kernel_module_glowforge.Io.{level}
use kernel_module_glowforge.Ring.{Kfifo, Ring}
use kernel_module_glowforge.Cnc.State.{Cnc, Faults}
use kernel_module_glowforge.Cnc.Fault.{probe}
use kernel_module_glowforge.Cnc.Event.{Event, drives_interlock, interlock_drive}
use kernel_module_glowforge.Cnc.Event as Driver
use kernel_module_glowforge.Interlock.{Interlock, init, is_level, wanted_level}
use kernel_module_glowforge.Interlock.Policy.{Input, step, after, after-IsDriven}
use kernel_module_glowforge.Interlock.History.{devices, last_open, released_iff}

pub record Line : Type 0 where
  pub interlock : Interlock
  pub cnc : Cnc

-- The callback as `cnc_interlock_apply` calls it: with the new level, where that differs from the last.
unfoldable pub hand_over : Option ℕ → Option ℕ → Cnc → Cnc
unfolding interlock_drive
hand_over none old c = c
hand_over (some l) old c = if is_level l old then c else interlock_drive l c

-- A switch device attaches, leaves or reports, or anything else happens to the driver.
pub data LineStep : Type 0 where
  switches : Input → LineStep
  happens : Event → LineStep

-- What happens drives no other level to the line.
abbrev pub NoDrive : LineStep → Type 0
NoDrive (happens (drives_interlock l)) = ⊥
NoDrive _ = Unit

abbrev pub inputs : List LineStep → List Input
inputs [] = []
inputs (switches i ∷ older) = i ∷ inputs older
inputs (happens e ∷ older) = inputs older

module _ (k : Kfifo) (ev_sw : ℕ) where
  unfoldable pub line_step : LineStep → Line → Line
  unfolding hand_over
  line_step (switches i) s =
      let il = step ev_sw s.interlock i in
      record { interlock = il; cnc = hand_over il.level s.interlock.level s.cnc }
  line_step (happens e) s = record s { cnc = Driver.step k e s.cnc }

  -- The driver after the probe, which initialises the interlock, and a history of steps, newest first.
  unfoldable pub line_after : Faults → Ring → List LineStep → Line
  unfolding line_step
  line_after live ring [] = record {
    interlock = init;
    cnc = hand_over init.level none (probe live ring);
  }
  line_after live ring (s ∷ older) = line_step s (line_after live ring older)

  keeps_line :
      (e : Event) (c : Cnc)
      → NoDrive (happens e)
      → level Pins.interlock_latch_reset (Driver.step k e c).calls
        ≡ level Pins.interlock_latch_reset c.calls
  unfolding Driver.step
  keeps_line (drives_interlock l) c n = elim n [ ]
  keeps_line _ c n = ground arith

  interlock-after :
      (live : Faults) (ring : Ring) (h : List LineStep)
      → (line_after live ring h).interlock ≡ after ev_sw (inputs h)
  unfolding line_after after
  interlock-after live ring [] = refl
  interlock-after live ring (switches i ∷ older) =
      ap (λ il. step ev_sw il i) (interlock-after live ring older)
  interlock-after live ring (happens e ∷ older) = interlock-after live ring older

  hand_over-level :
      (new m : ℕ) (c : Cnc)
      → level Pins.interlock_latch_reset c.calls ≡ some m
      → level Pins.interlock_latch_reset (hand_over (some new) (some m) c).calls ≡ some new
  unfolding hand_over
  hand_over-level new m c e = ground arith

  first_level :
      (live : Faults) (ring : Ring)
      → level Pins.interlock_latch_reset (line_after live ring []).cnc.calls ≡ init.level
  unfolding line_after init
  first_level live ring = refl

  -- The policy's new level is handed over.
  input-level :
      (i : Input) (older : List Input) (c : Cnc)
      → level Pins.interlock_latch_reset c.calls ≡ (after ev_sw older).level
      → level Pins.interlock_latch_reset
          (hand_over (after ev_sw (i ∷ older)).level (after ev_sw older).level c).calls
        ≡ (after ev_sw (i ∷ older)).level
  input-level i older c e =
      let new = after-IsDriven ev_sw (i ∷ older) in
      let old = after-IsDriven ev_sw older in
      rw (new.known, old.known)
        (hand_over-level (wanted_level (after ev_sw (i ∷ older))) (wanted_level (after ev_sw older))
          c (e ∙ old.known))

  line-after :
      (live : Faults) (ring : Ring) (h : List LineStep)
      → All NoDrive h
      → level Pins.interlock_latch_reset (line_after live ring h).cnc.calls
        ≡ (after ev_sw (inputs h)).level
  unfolding line_after after
  line-after live ring [] n = first_level live ring
  line-after live ring (switches i ∷ older) n =
      rw (interlock-after live ring older)
        (input-level i (inputs older) _ (line-after live ring older n.1))
  line-after live ring (happens e ∷ older) n = keeps_line e _ n.0 ∙ line-after live ring older n.1

  -- Whatever happens after the probe, in any order, the interlock line itself is low exactly if a
  -- switch device is attached and the newest reading of the loop, by an attaching device or by a
  -- switch event, is closed; otherwise it is high, which blocks the laser. No event but the policy's
  -- own drives the line through its callback.
  pub line_released_iff :
      (live : Faults) (ring : Ring) (h : List LineStep)
      → All NoDrive h
      → let line = level Pins.interlock_latch_reset (line_after live ring h).cnc.calls in
        (line ≡ some 0 ↔ (0 < devices (inputs h)) × (last_open ev_sw (inputs h) ≡ false))
        × (line ≢ some 0 → line ≡ some 1)
  line_released_iff live ring h n = rw (line-after live ring h n) (released_iff ev_sw (inputs h))
