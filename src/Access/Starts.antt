-- ===== src/Access/Starts.antt =====
-- A start is a sequence of events: the checks, the engine's registers, the power and the commit, with
-- what other contexts do in its two gaps.
use kernel_module_glowforge.Base.{ℕ, ◌%◌, ◌^◌, Bool, not, ◌||◌, ◌==◌, if◌then◌else◌, List}
use kernel_module_glowforge.Kernel.{Ret, fail, is_ok, Errno}
use kernel_module_glowforge.Buffer.{is_empty}
use kernel_module_glowforge.Cnc.Control.{power_off}
use kernel_module_glowforge.Ring.{Kfifo}
use kernel_module_glowforge.Cnc.State.{Cnc}
use kernel_module_glowforge.Cnc.Run.{
  StartEnv, RunOptions, may_start, verify_sdma_script, publish_run, power_run, run_commit,
  start_run, run_with_options, run, backtrack, resume,
}
use kernel_module_glowforge.Cnc.Event.{
  Event, checks_data, verifies, publishes, powers_run, commits, powers_off, step, steps,
}
use kernel_module_glowforge.Access.Reaches.{stays, by_step, by_steps, then-Reaches, Leads, one_of}

module _ (k : Kfifo) (env : StartEnv) (opts : RunOptions) (gen : ℕ) (ds : List Event)
    (c : Cnc) where
  abbrev at_check : Bool × Cnc
  at_check = is_empty k env.empty_fetch c

  abbrev at_verify : Ret × Cnc
  at_verify = verify_sdma_script env at_check.1

  abbrev at_publish : Ret × Cnc
  at_publish = publish_run k env opts at_verify.1

  abbrev at_power : Cnc
  at_power = steps k ds (power_run k env opts at_publish.1)

  abbrev at_commit : Ret × Cnc
  at_commit = run_commit env opts gen at_power

  abbrev at_undo : Ret × Cnc
  at_undo = (at_commit.0, power_off env.rail_off at_commit.1)

  -- The exits of a start, from its last one backward.
  abbrev after_commit : Ret × Cnc
  after_commit = if is_ok at_commit.0 || env.was_powered then at_commit else at_undo

  abbrev after_publish : Ret × Cnc
  after_publish = if not (is_ok at_publish.0) then at_publish else after_commit

  abbrev after_verify : Ret × Cnc
  after_verify = if not (is_ok at_verify.0) then at_verify else after_publish

  abbrev at_refusal : Ret × Cnc
  at_refusal = (fail Errno.enodata, at_check.1)

  pub start_run-Leads : Leads k c (start_run k env opts gen (steps k ds) c)
  unfolding start_run step
  start_run-Leads =
      let r1 = by_step k (checks_data env.empty_fetch) c in
      let r2 = then-Reaches k r1 (by_step k (verifies env) at_check.1) in
      let r3 = then-Reaches k r2 (by_step k (publishes env opts) at_verify.1) in
      let r4 = then-Reaches k r3 (by_step k (powers_run env opts) at_publish.1) in
      let r5 = then-Reaches k r4 (by_steps k ds (power_run k env opts at_publish.1)) in
      let r6 = then-Reaches k r5 (by_step k (commits env opts gen) at_power) in
      let r7 = then-Reaches k r6 (by_step k (powers_off env.rail_off) at_commit.1) in
      let s4 =
        one_of k (is_ok at_commit.0 || env.was_powered) at_commit at_undo (record { leads = r6 })
          (record { leads = r7 }) in
      let s3 =
        one_of k (not (is_ok at_publish.0)) at_publish after_commit (record { leads = r3 }) s4 in
      let s2 =
        one_of k (not (is_ok at_verify.0)) at_verify after_publish (record { leads = r2 }) s3 in
      one_of k at_check.0 at_refusal after_verify (record { leads = r1 }) s2

module _ (k : Kfifo) (env : StartEnv) (bs ds : List Event) where
  run_with_options-Leads :
      (opts : RunOptions) (c : Cnc)
      → Leads k c (run_with_options k env opts (steps k bs) (steps k ds) c)
  unfolding run_with_options
  run_with_options-Leads opts c =
      let d = steps k bs c in
      let started = start_run-Leads k env opts d.stop_generation ds d in
      one_of k (may_start c.state) (start_run k env opts d.stop_generation (steps k ds) d)
        (fail Errno.eperm, c) (record { leads = then-Reaches k (by_steps k bs c) started.leads })
        (record { leads = stays k c })

  pub run-Leads : (c : Cnc) → Leads k c (run k env (steps k bs) (steps k ds) c)
  unfolding run
  run-Leads c = run_with_options-Leads _ c

  pub resume-Leads : (n : ℕ) (c : Cnc) → Leads k c (resume k env n (steps k bs) (steps k ds) c)
  unfolding resume
  resume-Leads n c = run_with_options-Leads _ c

  pub backtrack-Leads :
      (n : ℕ) (c : Cnc) → Leads k c (backtrack k env n (steps k bs) (steps k ds) c)
  unfolding backtrack
  backtrack-Leads n c =
      let back : RunOptions = record {
        num_steps = n % 2 ^ 28;
        backward = Bool.true;
        accelerate = Bool.true;
        decelerate = Bool.true;
        preserve_power = Bool.true;
      } in
      one_of k (n == 0) (fail Errno.einval, c)
        (run_with_options k env back (steps k bs) (steps k ds) c) (record { leads = stays k c })
        (run_with_options-Leads back c)
