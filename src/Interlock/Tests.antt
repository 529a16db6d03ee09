-- ===== src/Interlock/Tests.antt =====
-- Runs of the interlock policy, and the theorems at concrete histories.
use kernel_module_glowforge.Base.{
  ◌<◌, ◌≡◌, ◌≢◌, ◌↔◌, ◌⊎◌, ◌++◌, refl, false, true, some, List, [], ◌∷◌,
}
use kernel_module_glowforge.Kernel.{ok, is_ok}
use kernel_module_glowforge.Interlock.{
  init, sw_code, Connection, connect, disconnect, attach, detach,
}
use kernel_module_glowforge.Interlock.Policy.{
  step, Input, attaches, detaches, reports, after, IsDriven, after-IsDriven,
}
use kernel_module_glowforge.Interlock.Glue.{held, nothing_held, connect_lem}
use kernel_module_glowforge.Interlock.History.{devices, last_open, released_iff}
use kernel_module_glowforge.Interlock.Line.{
  LineStep, switches, happens, inputs, line_after, line_released_iff,
}
use kernel_module_glowforge.Pins
use kernel_module_glowforge.Io.{level}
use kernel_module_glowforge.Ring.{Ring}
use kernel_module_glowforge.Ring.Plain.{plain_kfifo}
use kernel_module_glowforge.Cnc.State.{no_faults}
use kernel_module_glowforge.Cnc.Event.{halts, ramp_tick}

-- A device attaches with the loop open, the loop closes, another key is pressed, the device goes.
abbrev closed_loop : List Input
closed_loop = reports 1 30 1 ∷ reports 5 sw_code 0 ∷ attaches true ∷ []

abbrev unplugged : List Input
unplugged = detaches ∷ closed_loop

levels_driven :
    ((after 5 unplugged).driven ≡ 1 ∷ 0 ∷ 1 ∷ []) × ((after 5 closed_loop).level ≡ some 0)
unfolding after step init
levels_driven = (refl, refl)

IsDriven-unplugged : IsDriven (after 5 unplugged)
IsDriven-unplugged = after-IsDriven 5 unplugged

unplugged_blocks :
    ((after 5 unplugged).level ≡ some 0 ↔ (0 < devices unplugged) × (last_open 5 unplugged ≡ false))
    × ((after 5 unplugged).level ≢ some 0 → (after 5 unplugged).level ≡ some 1)
unplugged_blocks = released_iff 5 unplugged

-- A device whose loop is open, which registers and opens.
abbrev open_loop : Connection
open_loop = record { allocated = true; register_status = 0; open_status = 0; sw_bit = true }

connects_once :
    let r = connect open_loop (after 5 unplugged) in
    ((r.ret ≡ ok)
      × (r.interlock ≡ attach (after 5 unplugged) true)
      × (held r.calls ≡ record { memory = true; registered = true; opened = true })
      × (held ((disconnect r.interlock).1 ++ r.calls) ≡ nothing_held)
      × ((disconnect r.interlock).0 ≡ detach r.interlock))
    ⊎ ((is_ok r.ret ≡ false) × (r.interlock ≡ after 5 unplugged) × (held r.calls ≡ nothing_held))
connects_once = connect_lem open_loop (after 5 unplugged)

-- The loop closes while the driver is halted, and a tick of the ramp follows.
abbrev ring : Ring
ring = record { fifo = record { in_ix = 0; out_ix = 0; mask = 65535 }; total_bytes = 0 }

abbrev closes_in_between : List LineStep
closes_in_between =
    happens ramp_tick
    ∷ switches (reports 5 sw_code 0)
    ∷ happens (halts false)
    ∷ switches (attaches true)
    ∷ []

line_released_iff_example :
    let line =
      level Pins.interlock_latch_reset
        (line_after plain_kfifo 5 no_faults ring closes_in_between).cnc.calls in
    (line ≡ some 0
      ↔ (0 < devices (inputs closes_in_between)) × (last_open 5 (inputs closes_in_between) ≡ false))
    × (line ≢ some 0 → line ≡ some 1)
line_released_iff_example =
    line_released_iff plain_kfifo 5 no_faults ring closes_in_between (tt, (tt, (tt, (tt, tt))))
