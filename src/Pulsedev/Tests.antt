-- ===== src/Pulsedev/Tests.antt =====
-- The pulse device in a concrete history, and its theorems at it.
use kernel_module_glowforge.Base.{
  ◌-◌, ◌^◌, ◌<◌, ◌≡◌, ◌≢◌, ◌⊎◌, ◌↔◌, refl, true, false, some, List, [], ◌∷◌,
}
use kernel_module_glowforge.Kernel.{ok, is_ok}
use kernel_module_glowforge.Pins
use kernel_module_glowforge.Io.{drive, input, level}
use kernel_module_glowforge.Ring.{Ring}
use kernel_module_glowforge.Cnc.State.{Cnc, running}
use kernel_module_glowforge.Cnc.Fault.{zeroed}
use kernel_module_glowforge.Pulsedev.{
  Pulsedev, pulsedev_open, pulsedev_close, f_setlk, f_wrlck, positive, negative, resume_request,
  walks_back, goes_on,
}
use kernel_module_glowforge.Pulsedev.Deadman.{close_lem}
use kernel_module_glowforge.Ring.Plain.{plain_kfifo}
use kernel_module_glowforge.Cnc.Event.{ramp_tick, sets_freq, steps}
use kernel_module_glowforge.Cnc.Commits.{has_commit, times_told}
use kernel_module_glowforge.Pulsedev.Holders.{
  Op, opens, closes, locks, run_ops, holding, Holds, run_ops-Holds,
}
use kernel_module_glowforge.Cnc.Control.{set_ramp_rate_hz_per_s, get_ramp_rate_hz_per_s}
use kernel_module_glowforge.Pulsedev.{number}
use kernel_module_glowforge.Pulsedev.Settings.{
  Text, store, show, ramp_rate_attr, ramp_rate_store, settings_read_back,
}
use kernel_module_glowforge.Pulsedev.Stores.{resume_request_lem}

abbrev ring : Ring
ring = record { fifo = record { in_ix = 5000; out_ix = 0; mask = 65535 }; total_bytes = 5000 }

abbrev cutting : Cnc
cutting = record (zeroed ring) { state = running; step_freq = 10000 }

-- A device whose holder armed the dead man's switch and runs a job, and a free one.
abbrev held_dev : Pulsedev
held_dev = record { cnc = cutting; pulsedev_in_use = true; deadman_switch_active = true }

abbrev free_dev : Pulsedev
free_dev = record { cnc = zeroed ring; pulsedev_in_use = false; deadman_switch_active = false }

close_lem_example :
    let (r, q) =
      pulsedev_close
        (steps plain_kfifo (ramp_tick ∷ []))
        (steps plain_kfifo (sets_freq 1 ∷ []))
        (some held_dev) in
    (r ≡ ok)
    × (d : Pulsedev) × (q ≡ some d)
    × (d.pulsedev_in_use ≡ false)
    × (drive Pins.laser_on d.cnc.calls ≡ some input)
    × (level Pins.laser_latch_reset d.cnc.calls ≡ some 1)
    × (true ≡ true
        → running ≡ running
        → ((d.cnc.state ≢ running) ⊎ (has_commit (sets_freq 1 ∷ []) ≡ true))
          × (times_told [] < times_told d.cnc.calls))
close_lem_example = close_lem plain_kfifo (ramp_tick ∷ []) (sets_freq 1 ∷ []) held_dev

-- Opened, armed, closed, and opened again.
abbrev reopened : List Op
reopened = opens ∷ closes (λ c. c) (λ c. c) ∷ locks f_setlk f_wrlck ∷ opens ∷ []

run_ops-Holds_example :
    Holds reopened (run_ops reopened (some free_dev))
    × ((pulsedev_open (run_ops reopened (some free_dev))).0 ≡ ok ↔ holding reopened ≡ false)
run_ops-Holds_example = run_ops-Holds free_dev reopened refl refl

resumes_for_300 :
    (resume_request (negative 300) ≡ walks_back 300
      → (300 < 2 ^ 28) × ((negative 300 ≡ negative 300) ⊎ (negative 300 ≡ positive (2 ^ 32 - 300))))
    × (resume_request (negative 300) ≡ goes_on 300 → (300 < 2 ^ 28) × (negative 300 ≡ positive 300))
    × (300 < 2 ^ 28 → negative 300 ≡ negative 300 → resume_request (negative 300) ≡ walks_back 300)
    × (0 < 300
        → 300 < 2 ^ 28
        → negative 300 ≡ positive (2 ^ 32 - 300)
        → resume_request (negative 300) ≡ walks_back 300)
    × (300 < 2 ^ 28 → negative 300 ≡ positive 300 → resume_request (negative 300) ≡ goes_on 300)
resumes_for_300 = resume_request_lem (negative 300) 300

-- 123456 Hz/s is taken, and shows as 123400; 9999 is out of range.
abbrev ramp_text : Text
ramp_text = record { parsed = number 123456; chars = [] }

ramp_taken : show ramp_rate_attr (store ramp_rate_attr ramp_text (zeroed ring)).1 ≡ 123400
unfolding store ramp_rate_store set_ramp_rate_hz_per_s get_ramp_rate_hz_per_s
ramp_taken = refl

settings_read_back_example :
    let (ret, d) = store ramp_rate_attr ramp_text (zeroed ring) in
    ((is_ok ret ≡ true) × (show ramp_rate_attr d ≡ 123400))
    ⊎ ((is_ok ret ≡ false) × (d ≡ (zeroed ring)))
settings_read_back_example = settings_read_back ramp_rate_attr ramp_text (zeroed ring)
