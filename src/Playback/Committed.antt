-- ===== src/Playback/Committed.antt =====
-- The driver that a start commits (`cnc_run_with_options`, src/cnc.c), while its job runs.
use kernel_module_glowforge.Base.{◌≡◌, true, false, refl, ap, ◌∙◌, arith}
use kernel_module_glowforge.Kernel.{ok, is_ok}
use kernel_module_glowforge.Buffer.{is_empty}
use kernel_module_glowforge.Access.CanRun.{IsGood}
use kernel_module_glowforge.Ring.{Kfifo, Fetch}
use kernel_module_glowforge.Cnc.State.{Cnc, idle, running, any_fault}
use kernel_module_glowforge.Cnc.Run.{
  may_start, StartEnv, RunOptions, run_with_options, start_run, verify_sdma_script, publish_run,
  power_run, run_commit,
}

-- The driver as the job runs.
pub record Runs (c d : Cnc) : Type 0 where
  pub state : d.state ≡ running
  pub mailbox : d.sdma_mailbox ≡ 0
  pub streaming : d.streaming ≡ c.streaming
  pub underruns : d.underrun_count ≡ c.underrun_count

-- A driver as the start finds it, while it is prepared.
record Waits (c d : Cnc) : Type 0 where
  state : d.state ≡ idle
  faults : any_fault d.triggered_faults ≡ false
  generation : d.stop_generation ≡ c.stop_generation
  streaming : d.streaming ≡ c.streaming
  underruns : d.underrun_count ≡ c.underrun_count

empty-Waits : (k : Kfifo) (f : Fetch) (c d : Cnc) → Waits c d → Waits c (is_empty k f d).1
unfolding is_empty
empty-Waits k f c d w = ground arith

verify-Waits :
    (env : StartEnv) (c d : Cnc)
    → IsGood env
    → Waits c d
    → let (r, e) = verify_sdma_script env d in (is_ok r ≡ true) × Waits c e
unfolding verify_sdma_script
verify-Waits env c d g w = ground arith

publish-Waits :
    (k : Kfifo) (env : StartEnv) (opts : RunOptions) (c d : Cnc)
    → IsGood env
    → opts.backward ≡ false
    → Waits c d
    → let (r, e) = publish_run k env opts d in (is_ok r ≡ true) × (e.sdma_mailbox ≡ 0) × Waits c e
unfolding publish_run
publish-Waits k env opts c d g b w = ground arith

power-Waits :
    (k : Kfifo) (env : StartEnv) (opts : RunOptions) (c d : Cnc)
    → Waits c d
    → let e = power_run k env opts d in (e.sdma_mailbox ≡ d.sdma_mailbox) × Waits c e
unfolding power_run
power-Waits k env opts c d w = ground arith

commit-Runs :
    (env : StartEnv) (opts : RunOptions) (c d : Cnc)
    → Waits c d
    → d.sdma_mailbox ≡ 0
    → let (r, e) = run_commit env opts c.stop_generation d in (r ≡ ok) × Runs c e
unfolding run_commit
commit-Runs env opts c d w m = ground arith

pub started-Runs :
    (k : Kfifo) (env : StartEnv) (opts : RunOptions) (c : Cnc)
    → IsGood env
    → c.state ≡ idle
    → any_fault c.triggered_faults ≡ false
    → (is_empty k env.empty_fetch c).0 ≡ false
    → opts.backward ≡ false
    → let (r, d) = run_with_options k env opts (λ e. e) (λ e. e) c in (r ≡ ok) × Runs c d
unfolding run_with_options start_run
started-Runs k env opts c g i n e b =
    let first =
      empty-Waits k env.empty_fetch c c
        (record { state = i; faults = n; generation = refl; streaming = refl; underruns = refl }) in
    let (verified, second) = verify-Waits env c _ g first in
    let (published, mailbox, third) = publish-Waits k env opts c _ g b second in
    let (kept, fourth) = power-Waits k env opts c _ third in
    let (committed, runs) = commit-Runs env opts c _ fourth (kept ∙ mailbox) in
    rw (ap (λ s. may_start s) i, e, verified, published, committed) (refl, runs)
