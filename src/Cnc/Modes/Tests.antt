-- ===== src/Cnc/Modes/Tests.antt =====
-- The modes, the motor locks and the sampler at concrete inputs.
use kernel_module_glowforge.Base.{
  ℕ, suc, zero, ◌≡◌, ◌≢◌, ◌⊎◌, true, false, some, refl, arith, List, [], ◌∷◌, ◌==◌, if◌then◌else◌,
}
use kernel_module_glowforge.Kernel.{ok, is_ok}
use kernel_module_glowforge.Pins
use kernel_module_glowforge.Cnc.State.{Cnc}
use kernel_module_glowforge.Cnc.Fault.{zeroed}
use kernel_module_glowforge.Cnc.Modes.{
  set_microstep_mode, get_microstep_mode, MotorLock, set_motor_lock, get_motor_lock,
}
use kernel_module_glowforge.Cnc.Modes.RoundTrips.{
  ReadsBack, set-get_microstep_mode, set-get_motor_lock,
}
use kernel_module_glowforge.Ring.Plain.{plain_kfifo}
use kernel_module_glowforge.Cnc.State.{no_faults}
use kernel_module_glowforge.Cnc.Event.{Event, sets_streaming, sets_decay}
use kernel_module_glowforge.Cnc.Decay.{Decays, set_decay_mode, get_decay_mode, probe_decays}
use kernel_module_glowforge.Cnc.DecayTracks.{decay_step, decay_steps, Tracks, decay_reads_back}
use kernel_module_glowforge.Cnc.Sampler.{Sampler, Sample, samples, lows, highs, window_lem}

abbrev quiet : Cnc
quiet = zeroed (record { fifo = record { in_ix = 0; out_ix = 0; mask = 65535 }; total_bytes = 0 })

-- The lines once the Y axis was set to eight microsteps.
abbrev eighths : ℕ → ℕ
eighths p = if p == Pins.y_mode0 then 1 else if p == Pins.y_mode1 then 1 else 0

eighths-ReadsBack : ReadsBack (set_microstep_mode 1 8 quiet).1.calls eighths
unfolding set_microstep_mode
eighths-ReadsBack = record { low = λ p e. ground arith; high = λ p v e n. ground arith }

one_mode_reads_back :
    (((set_microstep_mode 1 8 quiet).0 ≡ ok) × (get_microstep_mode eighths 1 ≡ some 8))
    ⊎ ((is_ok (set_microstep_mode 1 8 quiet).0 ≡ false)
        × ((set_microstep_mode 1 8 quiet).1 ≡ quiet))
one_mode_reads_back = set-get_microstep_mode 1 8 quiet eighths eighths-ReadsBack

-- The step pins have the bit of their index.
abbrev own_bit : ℕ → ℕ
own_bit p = p

abbrev x_locked : MotorLock
x_locked = record { lock_x = true; lock_y1 = false; lock_y2 = false; lock_z = false }

abbrev no_error : ℕ
no_error = 0

x_lock_reads_back :
    (no_error ≡ 0 → get_motor_lock own_bit 0 (set_motor_lock own_bit x_locked) ≡ x_locked)
    × (no_error ≢ 0
        → get_motor_lock own_bit 0 (set_motor_lock own_bit x_locked)
          ≡ record { lock_x = false; lock_y1 = false; lock_y2 = false; lock_z = false })
x_lock_reads_back =
    set-get_motor_lock own_bit 0 x_locked (ground arith) (ground arith) (ground arith)
      (ground arith) (ground arith) (ground arith)

-- A window in which the laser is on and has power throughout.
abbrev repeated : ℕ → List Sample
repeated zero = []
repeated (suc n) = record { laser_on_readback = 0; laser_pgood = 1 } ∷ repeated n

abbrev cleared : Sampler
cleared = record {
  laser_on_low_count = 0;
  laser_pgood_high_count = 0;
  laser_sample_count = 0;
  laser_on_sampled = 3;
  laser_pgood_sampled = 4;
}

window_of_256 : samples (repeated 255) cleared ≡ record {
  laser_on_low_count = 0;
  laser_pgood_high_count = 0;
  laser_sample_count = 0;
  laser_on_sampled = lows (repeated 255);
  laser_pgood_sampled = highs (repeated 255);
}
window_of_256 = window_lem (repeated 255) cleared refl refl refl refl

-- Slow decay for X, a start of the laser's stream, a mode that is none, and fast decay for Y.
abbrev decays_set : List Event
decays_set = sets_decay 0 0 ∷ sets_streaming true ∷ sets_decay 0 7 ∷ sets_decay 1 2 ∷ []

abbrev decays : Decays
decays = decay_steps plain_kfifo decays_set (probe_decays no_faults quiet.ring)

x_is_slow : get_decay_mode decays 0 ≡ some 0
unfolding decay_steps decay_step set_decay_mode get_decay_mode probe_decays
x_is_slow = refl

decay_reads_back_example : Tracks decays
decay_reads_back_example = decay_reads_back plain_kfifo no_faults quiet.ring decays_set
