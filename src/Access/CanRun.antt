-- ===== src/Access/CanRun.antt =====
-- User space can always bring the driver back and run a job.
use kernel_module_glowforge.Base.{ℕ, ◌≡◌, ◌⊎◌, refl, ap, ◌∙◌, false, List, [], ◌∷◌, arith}
use kernel_module_glowforge.Kernel.{ok}
use kernel_module_glowforge.Ring.{Kfifo, Ring}
use kernel_module_glowforge.Buffer.{is_empty}
use kernel_module_glowforge.Cnc.State.{
  Cnc, CncState, idle, running, disabled, fault, any_fault, no_faults, Faults,
}
use kernel_module_glowforge.Cnc.Control.{Rail, stop, halt, enable}
use kernel_module_glowforge.Cnc.Run.{
  StartEnv, run, run_with_options, start_run, publish_run, power_run, run_commit,
  verify_sdma_script,
}
use kernel_module_glowforge.Cnc.Fault.{probe}
use kernel_module_glowforge.Cnc.Event.{steps}
use kernel_module_glowforge.Cnc.Invariant.Faults.{FaultStops}
use kernel_module_glowforge.Pulsedev.Settings.{command_store}
use kernel_module_glowforge.Access.{
  Act, does, Device, Gaps, writes_halt, writes_stop, writes_enable, writes_run, act, acts,
}
use kernel_module_glowforge.Access.Reached.{user_space_is_events}

abbrev IsCalm : CncState → Type 0
IsCalm s = (s ≡ idle) ⊎ ((s ≡ disabled) ⊎ (s ≡ fault))

calmed-IsCalm : (c : Cnc) → IsCalm (stop (halt false c).1).1.state
unfolding stop halt
calmed-IsCalm c = ground arith

calmed-FaultStops : (c : Cnc) → FaultStops c → FaultStops (stop (halt false c).1).1
unfolding stop halt
calmed-FaultStops c f = ground (arith, f.stopped)

enabled_idle :
    (rail rail_off : Rail) (c : Cnc)
    → FaultStops c
    → IsCalm c.state
    → let (r, d) = enable no_faults rail rail_off (λ e. e) c in
      (r ≡ ok) × (d.state ≡ idle) × (any_fault d.triggered_faults ≡ false)
unfolding enable
enabled_idle rail rail_off c f s = ground (arith, f.stopped)

-- What the kernel answers to a start that it carries out.
pub record IsGood (env : StartEnv) : Type 0 where
  pub script_fetched : env.script_fetch_status ≡ 0
  pub script_written : env.script_write_status ≡ 0
  pub regs_written : env.regs_status ≡ 0
  pub inhibit_written : env.inhibit_status ≡ 0

run_forward :
    (k : Kfifo) (env : StartEnv) (c : Cnc)
    → IsGood env
    → c.state ≡ idle
    → any_fault c.triggered_faults ≡ false
    → (is_empty k env.empty_fetch c).0 ≡ false
    → let (r, d) = run k env (λ e. e) (λ e. e) c in (r ≡ ok) × (d.state ≡ running)
unfolding run run_with_options start_run is_empty verify_sdma_script publish_run power_run
    run_commit
run_forward k env c g i n e = ground arith

-- The texts of a command: a `1` and a newline.
abbrev one : List ℕ
one = 49 ∷ 10 ∷ []

-- A halt, a stop, and an enable while no fault line reads asserted
abbrev pub brings_back : Rail → Rail → List Act
brings_back rail rail_off =
    does (writes_halt one)
    ∷ does (writes_stop one)
    ∷ does (writes_enable no_faults rail rail_off [] one)
    ∷ []

-- A run with no other context in its gaps
abbrev pub undisturbed : StartEnv → Gaps
undisturbed env = record { env = env; between = []; during = [] }

module _ (k : Kfifo) where
  abbrev pub brought_back : Rail → Rail → Device → Device
  brought_back rail rail_off d = acts k (brings_back rail rail_off) d

  brought_back_idle :
      (rail rail_off : Rail) (d : Device)
      → FaultStops d.pulsedev.cnc
      → let c = (brought_back rail rail_off d).pulsedev.cnc in
        (c.state ≡ idle) × (any_fault c.triggered_faults ≡ false)
  unfolding acts act command_store steps
  brought_back_idle rail rail_off d f =
      let c = (stop (halt false d.pulsedev.cnc).1).1 in
      let r =
        enabled_idle rail rail_off c (calmed-FaultStops d.pulsedev.cnc f)
          (calmed-IsCalm d.pulsedev.cnc) in
      (r.1, r.2)

  run_written :
      (env : StartEnv) (d : Device)
      → (act k (does (writes_run (undisturbed env) one)) d).pulsedev.cnc
        ≡ (run k env (λ e. e) (λ e. e) d.pulsedev.cnc).1
  unfolding act command_store steps
  run_written env d = refl

  -- Whatever user space and other contexts have done since the probe, in any order: once user space
  -- writes a `1` to `halt`, `stop` and `enable` while no fault line reads asserted, the driver is idle
  -- with no fault recorded, and a `1` written to `run` then sets it running. The ring has data, and
  -- while the run starts the kernel's services succeed and no other context comes in.
  pub can_always_run :
      (live : Faults) (ring : Ring) (as' : List Act) (d : Device) (rail rail_off : Rail)
      (env : StartEnv)
      → d.pulsedev.cnc ≡ probe live ring
      → IsGood env
      → (is_empty k env.empty_fetch (brought_back rail rail_off (acts k as' d)).pulsedev.cnc).0
        ≡ false
      → let e = brought_back rail rail_off (acts k as' d) in
        (e.pulsedev.cnc.state ≡ idle)
        × (any_fault e.pulsedev.cnc.triggered_faults ≡ false)
        × ((act k (does (writes_run (undisturbed env) one)) e).pulsedev.cnc.state ≡ running)
  can_always_run live ring as' d rail rail_off env p g n =
      let e = brought_back rail rail_off (acts k as' d) in
      let b = brought_back_idle rail rail_off _ (user_space_is_events k live ring as' d p).1 in
      let r = run_forward k env e.pulsedev.cnc g b.0 b.1 n in
      (b.0, b.1, ap (λ c. c.state) (run_written env e) ∙ r.1)
