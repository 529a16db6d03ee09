-- ===== src/Interlock/History.antt =====
-- The interlock line as a function of what the switch devices have said.
use kernel_module_glowforge.Base.{
  ℕ, suc, ◌-◌, ◌<◌, ◌≡◌, ◌≢◌, ◌↔◌, refl, Bool, true, false, not, ◌&&◌, some, List, [], ◌∷◌, arith,
  ◌==◌, if◌then◌else◌,
}
use kernel_module_glowforge.Interlock.{wanted_level, apply, init, sw_code}
use kernel_module_glowforge.Interlock.Policy.{
  Input, attaches, detaches, reports, step, after, after-IsDriven,
}

-- How many devices are attached after a history, newest input first.
abbrev pub devices : List Input → ℕ
devices [] = 0
devices (attaches b ∷ older) = suc (devices older)
devices (detaches ∷ older) = devices older - 1
devices (reports t c v ∷ older) = devices older

-- Whether the newest reading of the loop is open; with no reading it counts as open.
abbrev pub last_open : ℕ → List Input → Bool
last_open ev_sw [] = true
last_open ev_sw (attaches b ∷ older) = b
last_open ev_sw (detaches ∷ older) = last_open ev_sw older
last_open ev_sw (reports t c v ∷ older) =
    if (t == ev_sw) && (c == sw_code) then not (v == 0) else last_open ev_sw older

state-after :
    (ev_sw : ℕ) (h : List Input)
    → let il = after ev_sw h in (il.attached ≡ devices h) × (il.loop_open ≡ last_open ev_sw h)
unfolding after step apply init
state-after ev_sw [] = (refl, refl)
state-after ev_sw (attaches b ∷ older) = ground (arith, state-after ev_sw older)
state-after ev_sw (detaches ∷ older) = ground (arith, state-after ev_sw older)
state-after ev_sw (reports t c v ∷ older) = ground (arith, state-after ev_sw older)

-- After any history the line is released exactly if a device is attached and the newest reading of
-- the loop, by an attaching device or by a switch event, is closed; otherwise it blocks.
pub released_iff :
    (ev_sw : ℕ) (h : List Input)
    → ((after ev_sw h).level ≡ some 0 ↔ (0 < devices h) × (last_open ev_sw h ≡ false))
      × ((after ev_sw h).level ≢ some 0 → (after ev_sw h).level ≡ some 1)
unfolding wanted_level
released_iff ev_sw h = ground (arith, state-after ev_sw h, after-IsDriven ev_sw h)
