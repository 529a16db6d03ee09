-- ===== src/Access/Stores.antt =====
-- Every attribute and every operation of the device is a sequence of events.
use kernel_module_glowforge.Base.{
  ℕ, ◌%◌, ◌≡◌, ◌&&◌, ◌||◌, not, Bool, Option, none, some, List, [], ◌∷◌, ltb, leb, ◌==◌,
  if◌then◌else◌, arith,
}
use kernel_module_glowforge.Kernel.{ok, fail, is_ok, Errno, dms_notify}
use kernel_module_glowforge.Ring.{Kfifo, Fetch}
use kernel_module_glowforge.Buffer.{get_free_space, max_backtrack_length}
use kernel_module_glowforge.Cnc.State.{Cnc, CncState, is_running, Faults}
use kernel_module_glowforge.Cnc.Motion.{call}
use kernel_module_glowforge.Cnc.Control.{
  Rail, halt, disable_section, disable, enable_check, enable_commit, enable, supply_off,
  power_on_unchecked, power_off,
}
use kernel_module_glowforge.Cnc.Laser.{set_streaming}
use kernel_module_glowforge.Cnc.Run.{StartEnv}
use kernel_module_glowforge.Cnc.Decay.{Decays, set_decay_mode}
use kernel_module_glowforge.Cnc.Event.{
  Event, halts, disables, supply_goes_off, enable_checks, enable_commits, powers_on, powers_off,
  sets_freq, sets_ramp_rate, sets_latch, sets_streaming, ignores, checks_data, sets_mode,
  sets_decay, tells_listeners, step, steps,
}
use kernel_module_glowforge.Pulsedev.{
  Pulsedev, Parsed, bad, number, Signed, Request, refused, walks_back, goes_on, resume_request,
  answer_request, resume_store, deadman_stop, pulsedev_close, ignored_faults_store,
}
use kernel_module_glowforge.Pulsedev.Settings.{
  Setting, Text, store, step_freq_attr, ramp_rate_attr, ignored_faults_attr, streaming_attr,
  step_freq_store, ramp_rate_store, streaming_store,
}
use kernel_module_glowforge.Pulsedev.Modes.{mode_store, decay_store, free_show, max_backtrack_show}
use kernel_module_glowforge.Access.{bound}
use kernel_module_glowforge.Access.Reaches.{
  Reaches, stays, by_step, by_steps, then-Reaches, Leads, one_of, either_of,
}
use kernel_module_glowforge.Access.Starts.{backtrack-Leads, resume-Leads}

module _ (k : Kfifo) where
  pub disable-Leads :
      (rail : Rail) (bs : List Event) (c : Cnc) → Leads k c (disable Bool.false rail (steps k bs) c)
  unfolding disable step
  disable-Leads rail bs c =
      let d = (disable_section Bool.false c).1 in
      let r = then-Reaches k (by_step k (disables Bool.false) c) (by_steps k bs d) in
      record {
        leads =
            either_of k (disable_section Bool.false c).0 (supply_off rail (steps k bs d))
              (steps k bs d) (then-Reaches k r (by_step k (supply_goes_off rail) (steps k bs d))) r;
      }

  pub enable-Leads :
      (live : Faults) (rail rail_off : Rail) (bs : List Event) (c : Cnc)
      → Leads k c (enable live rail rail_off (steps k bs) c)
  unfolding enable step
  enable-Leads live rail rail_off bs c =
      let check = enable_check live c in
      let on = power_on_unchecked rail (steps k bs check.2) in
      let commit = enable_commit on in
      let r1 = by_step k (enable_checks live) c in
      let r2 = then-Reaches k r1 (by_steps k bs check.2) in
      let r3 = then-Reaches k r2 (by_step k (powers_on rail) (steps k bs check.2)) in
      let r4 = then-Reaches k r3 (by_step k enable_commits on) in
      let r5 = then-Reaches k r4 (by_step k (powers_off rail_off) commit.1) in
      let last = if is_ok commit.0 then commit.1 else power_off rail_off commit.1 in
      one_of k (not check.1) (check.0, check.2) (commit.0, last) (record { leads = r1 })
        (record {
          leads = either_of k (is_ok commit.0) commit.1 (power_off rail_off commit.1) r4 r5;
        })

  freq-Leads : (p : Parsed) (c : Cnc) → Leads k c (step_freq_store p c)
  unfolding step_freq_store step
  freq-Leads (bad e) c = record { leads = stays k c }
  freq-Leads (number n) c = record { leads = by_step k (sets_freq n) c }

  rate-Leads : (p : Parsed) (c : Cnc) → Leads k c (ramp_rate_store p c)
  unfolding ramp_rate_store step
  rate-Leads (bad e) c = record { leads = stays k c }
  rate-Leads (number n) c = record { leads = by_step k (sets_ramp_rate n) c }

  faults-Leads : (p : Parsed) (c : Cnc) → Leads k c (ignored_faults_store p c)
  unfolding ignored_faults_store step
  faults-Leads (bad e) c = record { leads = stays k c }
  faults-Leads (number n) c =
      let mask : Faults = record {
        fault_x = n % 2 == 1;
        fault_y1 = leb 2 (n % 4);
        fault_y2 = leb 4 (n % 8);
      } in
      one_of k (ltb 7 n) (fail Errno.einval, c) (ok, record c { ignored_faults = mask })
        (record { leads = stays k c }) (record { leads = by_step k (ignores mask) c })

  streaming-Leads : (chars : List ℕ) (c : Cnc) → Leads k c (streaming_store chars c)
  unfolding streaming_store step
  streaming-Leads [] c = record { leads = stays k c }
  streaming-Leads (ch ∷ rest) c =
      one_of k (ch == 48 || (ch == 49)) (ok, set_streaming (ch == 49) c) (fail Errno.einval, c)
        (record { leads = by_step k (sets_streaming (ch == 49)) c }) (record { leads = stays k c })

  pub store-Leads : (s : Setting) (t : Text) (c : Cnc) → Leads k c (store s t c)
  unfolding store
  store-Leads step_freq_attr t c = freq-Leads t.parsed c
  store-Leads ramp_rate_attr t c = rate-Leads t.parsed c
  store-Leads ignored_faults_attr t c = faults-Leads t.parsed c
  store-Leads streaming_attr t c = streaming-Leads t.chars c

  pub mode_store-Leads : (axis : ℕ) (mode : Option ℕ) (c : Cnc) → Leads k c (mode_store axis mode c)
  unfolding mode_store step
  mode_store-Leads axis none c = record { leads = stays k c }
  mode_store-Leads axis (some mode) c = record { leads = by_step k (sets_mode axis mode) c }

  -- What setting a decay mode does to the driver does not hang on the modes set before.
  decay-same :
      (axis mode : ℕ) (d : Decays)
      → (set_decay_mode axis mode d).1.cnc ≡ step k (sets_decay axis mode) d.cnc
  unfolding step
  decay-same axis mode d = ground arith

  pub decay_store-Reaches :
      (axis : ℕ) (mode : Option ℕ) (d : Decays) → Reaches k d.cnc (decay_store axis mode d).1.cnc
  unfolding decay_store steps
  decay_store-Reaches axis none d = stays k d.cnc
  decay_store-Reaches axis (some mode) d = record {
    events = sets_decay axis mode ∷ [];
    reached = decay-same axis mode d;
  }

  -- A read that looks at the engine moves the ring's head, as the data check does.
  pub free_show-Reaches : (fetch : Fetch) (c : Cnc) → Reaches k c (free_show k fetch c).1
  unfolding free_show get_free_space step
  free_show-Reaches fetch c = by_step k (checks_data fetch) c

  pub max_backtrack_show-Reaches :
      (fetch : Fetch) (c : Cnc) → Reaches k c (max_backtrack_show k fetch c).1
  unfolding max_backtrack_show max_backtrack_length step
  max_backtrack_show-Reaches fetch c = by_step k (checks_data fetch) c

  module _ (env : StartEnv) (bs ds : List Event) where
    request-Leads :
        (r : Request) (c : Cnc) → Leads k c (answer_request k env (steps k bs) (steps k ds) r c)
    unfolding answer_request
    request-Leads (refused e) c = record { leads = stays k c }
    request-Leads (walks_back n) c = backtrack-Leads k env bs ds n c
    request-Leads (goes_on n) c = resume-Leads k env bs ds n c

    pub resume_store-Leads :
        (raw : Signed) (c : Cnc) → Leads k c (resume_store k env (steps k bs) (steps k ds) raw c)
    unfolding resume_store
    resume_store-Leads raw c = request-Leads (resume_request raw) c

  deadman_stop-Reaches :
      (active : Bool) (st : CncState) (c : Cnc) → Reaches k c (deadman_stop active st c)
  unfolding deadman_stop step
  deadman_stop-Reaches active st c =
      let halted = (halt Bool.false c).1 in
      either_of k (active && is_running st) (call dms_notify halted) c
        (then-Reaches k (by_step k (halts Bool.false) c) (by_step k tells_listeners halted))
        (stays k c)

  pub close-Reaches :
      (bs ds : List Event) (p : Pulsedev)
      → Reaches k p.cnc (bound p (pulsedev_close (steps k bs) (steps k ds) (some p)).1).cnc
  unfolding pulsedev_close step
  close-Reaches bs ds p =
      let c = steps k bs p.cnc in
      let d = deadman_stop p.deadman_switch_active p.cnc.state c in
      let r = then-Reaches k (by_steps k bs p.cnc) (deadman_stop-Reaches _ p.cnc.state c) in
      then-Reaches k r (then-Reaches k (by_steps k ds d) (by_step k (sets_latch 1) (steps k ds d)))
