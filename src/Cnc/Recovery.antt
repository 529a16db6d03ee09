-- ===== src/Cnc/Recovery.antt =====
-- Recovery from a fault: `cnc_enable` in the fault state.
use kernel_module_glowforge.Base.{◌≡◌, true, false, arith}
use kernel_module_glowforge.Kernel.{ok, fail, Errno}
use kernel_module_glowforge.Cnc.State.{
  Cnc, idle, fault, Faults, no_faults, any_fault, faults_and_not,
}
use kernel_module_glowforge.Cnc.Control.{Rail, enable, power_on_unchecked}
use kernel_module_glowforge.Cnc.Outputs.{IsOff}

module _ (live : Faults) (rail rail_off : Rail) (between : Cnc → Cnc) (c : Cnc) where
  -- The driver when the power is on and the faults are cleared.
  abbrev pub cleared : Cnc
  cleared = power_on_unchecked rail (between (record c { triggered_faults = no_faults }))

  -- An enable in the fault state is refused, with nothing changed, while a line that is not ignored
  -- reads asserted. Otherwise it clears the faults and powers the steppers: where a fault races in,
  -- it fails and leaves the steppers off and the laser latch locked; where none does and the driver
  -- is still in the fault state, it succeeds, and the driver is idle with no fault recorded.
  pub enable-fault :
      c.state ≡ fault
      → (any_fault (faults_and_not live c.ignored_faults) ≡ true
          → enable live rail rail_off between c ≡ (fail Errno.eperm, c))
        × (any_fault (faults_and_not live c.ignored_faults) ≡ false
            → (any_fault cleared.triggered_faults ≡ true
                → ((enable live rail rail_off between c).0 ≡ fail Errno.eperm)
                  × IsOff (enable live rail rail_off between c).1.calls)
              × (any_fault cleared.triggered_faults ≡ false
                  → cleared.state ≡ fault
                  → ((enable live rail rail_off between c).0 ≡ ok)
                    × ((enable live rail rail_off between c).1.state ≡ idle)
                    × (any_fault (enable live rail rail_off between c).1.triggered_faults ≡ false)))
  unfolding enable
  enable-fault s = ground arith
