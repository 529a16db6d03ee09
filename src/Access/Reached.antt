-- ===== src/Access/Reached.antt =====
-- Whatever user space does is a sequence of events of the driver.
use kernel_module_glowforge.Base.{
  ℕ, ◌≡◌, ◌||◌, not, Bool, true, false, Option, some, List, [], ◌∷◌, ltb, if◌then◌else◌,
}
use kernel_module_glowforge.Kernel.{Ret, ok, fail, Errno}
use kernel_module_glowforge.Ring.{Kfifo, Ring}
use kernel_module_glowforge.Buffer.{Copy, clear_pulse_data}
use kernel_module_glowforge.Cnc.State.{Cnc, Faults}
use kernel_module_glowforge.Cnc.Control.{stop, halt, single_z_step}
use kernel_module_glowforge.Cnc.Laser.{set_laser_latch}
use kernel_module_glowforge.Cnc.Fault.{probe}
use kernel_module_glowforge.Cnc.Event.{stops, halts, z_steps, sets_latch, writes, clears, step}
use kernel_module_glowforge.Cnc.Invariant.Faults.{FaultStops, probe-steps-FaultStops}
use kernel_module_glowforge.Cnc.Invariant.Laser.{LaserSafe, probe-steps-LaserSafe}
use kernel_module_glowforge.Cnc.Invariant.Flags.{FlagsFit, probe-steps-FlagsFit}
use kernel_module_glowforge.Cnc.Invariant.Rates.{RatesFit, probe-steps-RatesFit}
use kernel_module_glowforge.Pulsedev.{
  Pulsedev, pulsedev_open, pulsedev_flock, pulsedev_write, pulsedev_llseek, LockCmd, LockType,
  is_setlk, is_rdlck, is_unlck,
}
use kernel_module_glowforge.Access.{
  Access, Device, bound, of_Bool, attribute, file_operation, access, Act, does, happens, act, acts,
}
use kernel_module_glowforge.Access.Reaches.{
  Reaches, Leads, stays, by_step, then-Reaches, command_store-Leads, bool_store-Leads,
}
use kernel_module_glowforge.Access.Starts.{run-Leads}
use kernel_module_glowforge.Access.Stores.{
  disable-Leads, enable-Leads, store-Leads, mode_store-Leads, decay_store-Reaches,
  free_show-Reaches, max_backtrack_show-Reaches, resume_store-Leads, close-Reaches,
}

module _ (k : Kfifo) where
  stop-Leads : (c : Cnc) → Leads k c (stop c)
  unfolding step
  stop-Leads c = record { leads = by_step k stops c }

  halt-Leads : (c : Cnc) → Leads k c (halt false c)
  unfolding step
  halt-Leads c = record { leads = by_step k (halts false) c }

  z_step-Leads : (n : ℕ) (c : Cnc) → Leads k c (single_z_step n c)
  unfolding step
  z_step-Leads n c = record { leads = by_step k (z_steps n) c }

  latch-Leads : (n : ℕ) (c : Cnc) → Leads k c (set_laser_latch n c)
  unfolding step
  latch-Leads n c = record { leads = by_step k (sets_latch n) c }

  attribute-Reaches : (a : Access) (c : Cnc) → Reaches k c (attribute k a c)
  unfolding attribute
  attribute-Reaches (Access.writes_run g chars) c =
      (command_store-Leads k _ chars c (run-Leads k g.env g.between g.during c)).leads
  attribute-Reaches (Access.writes_resume g raw) c =
      (resume_store-Leads k g.env g.between g.during raw c).leads
  attribute-Reaches (Access.writes_stop chars) c =
      (command_store-Leads k stop chars c (stop-Leads c)).leads
  attribute-Reaches (Access.writes_halt chars) c =
      (command_store-Leads k (halt false) chars c (halt-Leads c)).leads
  attribute-Reaches (Access.writes_z_step chars) c =
      (bool_store-Leads k _ chars c (λ b. z_step-Leads (of_Bool b) c)).leads
  attribute-Reaches (Access.writes_laser_latch chars) c =
      (bool_store-Leads k _ chars c (λ b. latch-Leads (of_Bool b) c)).leads
  attribute-Reaches (Access.writes_disable rail bs chars) c =
      (command_store-Leads k _ chars c (disable-Leads k rail bs c)).leads
  attribute-Reaches (Access.writes_enable live rail rail_off bs chars) c =
      (command_store-Leads k _ chars c (enable-Leads k live rail rail_off bs c)).leads
  attribute-Reaches (Access.writes_setting s t) c = (store-Leads k s t c).leads
  attribute-Reaches (Access.writes_mode axis mode) c = (mode_store-Leads k axis mode c).leads
  attribute-Reaches (Access.reads_free fetch) c = free_show-Reaches k fetch c
  attribute-Reaches (Access.reads_max_backtrack fetch) c = max_backtrack_show-Reaches k fetch c
  attribute-Reaches _ c = stays k c

  -- Whichever branch a file operation takes
  bound_either :
      (p : Pulsedev) (b : Bool) (x y : Ret × Option Pulsedev)
      → Reaches k p.cnc (bound p x.1).cnc
      → Reaches k p.cnc (bound p y.1).cnc
      → Reaches k p.cnc (bound p (if b then x else y).1).cnc
  bound_either p true x y r s = r
  bound_either p false x y r s = s

  open-Reaches : (p : Pulsedev) → Reaches k p.cnc (bound p (pulsedev_open (some p)).1).cnc
  unfolding pulsedev_open
  open-Reaches p = bound_either p p.pulsedev_in_use _ _ (stays k p.cnc) (stays k p.cnc)

  flock-Reaches :
      (cmd : LockCmd) (type : LockType) (p : Pulsedev)
      → Reaches k p.cnc (bound p (pulsedev_flock cmd type (some p)).1).cnc
  unfolding pulsedev_flock
  flock-Reaches cmd type p =
      bound_either p (not (is_setlk cmd) || is_rdlck type) (fail Errno.einval, some p)
        (ok, some (record p { deadman_switch_active = not (is_unlck type) })) (stays k p.cnc)
        (stays k p.cnc)

  write-Reaches :
      (answers : Copy) (count : ℕ) (p : Pulsedev)
      → Reaches k p.cnc (bound p (pulsedev_write k answers count (some p)).1).cnc
  unfolding pulsedev_write step
  write-Reaches answers count p = by_step k (writes answers count) p.cnc

  seek-Reaches :
      (load_status : ℕ) (valid : Bool) (off : ℕ) (p : Pulsedev)
      → Reaches k p.cnc (bound p (pulsedev_llseek k load_status valid off (some p)).1).cnc
  unfolding pulsedev_llseek step
  seek-Reaches load_status valid off p =
      let r = clear_pulse_data k load_status off p.cnc in
      bound_either p (not valid || ltb 2 off) (fail Errno.einval, some p)
        (r.0, some (record p { cnc = r.1 })) (stays k p.cnc)
        (by_step k (clears load_status off) p.cnc)

  file_operation-Reaches : (a : Access) (p : Pulsedev) → Reaches k p.cnc (file_operation k a p).cnc
  unfolding file_operation
  file_operation-Reaches Access.opens_device p = open-Reaches p
  file_operation-Reaches (Access.closes_device bs ds) p = close-Reaches k bs ds p
  file_operation-Reaches (Access.locks_device cmd type) p = flock-Reaches cmd type p
  file_operation-Reaches (Access.writes_device answers count) p = write-Reaches answers count p
  file_operation-Reaches (Access.seeks_device s valid off) p = seek-Reaches s valid off p
  file_operation-Reaches _ p = stays k p.cnc

  access-Reaches : (a : Access) (d : Device) → Reaches k d.pulsedev.cnc (access k a d).pulsedev.cnc
  unfolding access
  access-Reaches (Access.writes_decay axis mode) d =
      decay_store-Reaches k axis mode (record { decay_mode = d.decay_mode; cnc = d.pulsedev.cnc })
  access-Reaches a d =
      then-Reaches k (file_operation-Reaches a d.pulsedev)
        (attribute-Reaches a (file_operation k a d.pulsedev).cnc)

  act-Reaches : (a : Act) (d : Device) → Reaches k d.pulsedev.cnc (act k a d).pulsedev.cnc
  unfolding act
  act-Reaches (does a) d = access-Reaches a d
  act-Reaches (happens e) d = by_step k e d.pulsedev.cnc

  acts-Reaches :
      (as' : List Act) (d : Device) → Reaches k d.pulsedev.cnc (acts k as' d).pulsedev.cnc
  unfolding acts
  acts-Reaches [] d = stays k d.pulsedev.cnc
  acts-Reaches (a ∷ rest) d = then-Reaches k (act-Reaches a d) (acts-Reaches rest (act k a d))

  -- Whatever user space does from the probe on, with the attributes and the pulse device, and
  -- whatever interrupts, timers and other contexts do in between and in the middle of it, leads to a
  -- state that a sequence of events leads to. So a driver with a recorded fault is in the fault state,
  -- the laser-enable line was never driven high, the rates are within their limits, and the flags of a
  -- run fit the state. The device's driver is as the probe left it.
  pub user_space_is_events :
      (live : Faults) (ring : Ring) (as' : List Act) (d : Device)
      → d.pulsedev.cnc ≡ probe live ring
      → let c = (acts k as' d).pulsedev.cnc in
        Reaches k (probe live ring) c × FaultStops c × LaserSafe c × RatesFit c × FlagsFit c
  user_space_is_events live ring as' d e =
      let r = acts-Reaches as' d in
      let s : Reaches k (probe live ring) (acts k as' d).pulsedev.cnc = rw (← e) r in
      (
        s,
        rw s.reached (probe-steps-FaultStops k live ring s.events),
        rw s.reached (probe-steps-LaserSafe k live ring s.events),
        rw s.reached (probe-steps-RatesFit k live ring s.events),
        rw s.reached (probe-steps-FlagsFit k live ring s.events),
      )
