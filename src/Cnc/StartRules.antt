-- ===== src/Cnc/StartRules.antt =====
-- What alone can set the driver running, and what alone can give the laser-enable line drive.
use kernel_module_glowforge.Base.{◌≡◌, ◌≢◌, false, ◌⊎◌, some, arith}
use kernel_module_glowforge.Pins
use kernel_module_glowforge.Io.{drive, output}
use kernel_module_glowforge.Ring.{Kfifo}
use kernel_module_glowforge.Cnc.State.{Cnc, idle, running, disabled, any_fault}
use kernel_module_glowforge.Cnc.Event.{Event, ramp_tick, commits, sets_latch, step}
use kernel_module_glowforge.Cnc.Invariant.Flags.{FlagsFit}

-- The event is a commit that is in order: no fault is recorded, the driver is idle or disabled, and
-- nothing has stopped it since the start began.
abbrev pub IsOrderly : Event → Cnc → Type 0
IsOrderly (commits env opts gen) c =
    (any_fault c.triggered_faults ≡ false)
    × ((c.state ≡ idle) ⊎ (c.state ≡ disabled))
    × (c.stop_generation ≡ gen)
IsOrderly _ c = ⊥

-- The event unlocks the laser latch, or commits a run while the latch reads unlocked.
abbrev pub IsUnlocked : Event → Type 0
IsUnlocked (commits env opts gen) = env.latch_level ≡ 0
IsUnlocked (sets_latch value) = value ≡ 0
IsUnlocked _ = ⊥

-- Where the flags of a run fit the state, an event that sets the driver running is an orderly
-- commit, and an event that gives the laser-enable line drive is an unlocking one, after which no
-- deceleration is on.
pub start_rules :
    (k : Kfifo) (e : Event) (c : Cnc)
    → FlagsFit c
    → let d = step k e c in
      (c.state ≢ running → d.state ≡ running → IsOrderly e c)
      × (drive Pins.laser_on c.calls ≢ some (output 0)
          → drive Pins.laser_on d.calls ≡ some (output 0)
          → IsUnlocked e × (d.decelerating ≡ false))
unfolding step
start_rules k ramp_tick c f = ground (arith, f.quiet)
start_rules k _ c f = ground (arith, f.quiet)
