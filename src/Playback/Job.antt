-- ===== src/Playback/Job.antt =====
-- A whole job: the start, the engine's bytes, and what its interrupts do to the driver.
use kernel_module_glowforge.Base.{
  ℕ, zero, suc, ◌≡◌, ◌≢◌, true, false, List, [], ◌∷◌, if◌then◌else◌, refl, ap, ◌∙◌, ◌%◌, add32,
  sub32, Bool-cases, inl, inr, arith,
}
use kernel_module_glowforge.Playback.Committed.{Runs, started-Runs}
use kernel_module_glowforge.Kernel.{ok}
use kernel_module_glowforge.Buffer.{is_empty}
use kernel_module_glowforge.Playback.{Copier, System, starts, start_forward, step, run}
use kernel_module_glowforge.Playback.Fed.{contents, IsFed}
use kernel_module_glowforge.Playback.Starts.{start_lem, start-IsFed}
use kernel_module_glowforge.Playback.Ends.{byte_steps, run_plays_out, loaded}
use kernel_module_glowforge.Playback.Plays.{
  after_byte, has_data_iff, consume-IsFed, data_byte, equal_words, next_ahead,
}
use kernel_module_glowforge.Access.CanRun.{IsGood}
use kernel_module_glowforge.Ring.{Kfifo}
use kernel_module_glowforge.Cnc.State.{Cnc, idle, running, underrun, any_fault}
use kernel_module_glowforge.Cnc.Motion.{sdma_interrupt, driver_stop}
use kernel_module_glowforge.Cnc.Run.{StartEnv, RunOptions, run_with_options}
use kernel_module_glowforge.Cnc.Outputs.{IsStill, stop-IsStill}
use kernel_module_glowforge.Engine.{
  Engine, Output, sets_mailbox, interrupts, writes_lines, writes_duty,
}
use kernel_module_glowforge.Engine.Bytes.{
  Memory, consume, has_data, play_pulse, play_power, end_byte, all_done, bit, byte_under,
  pulse_under,
}

-- What the engine's outputs do to the driver, newest first: the mailbox is a word in its memory, and
-- an interrupt runs the channel's callback.
unfoldable pub deliver : List Output → Cnc → Cnc
deliver [] c = c
deliver (writes_lines l ∷ older) c = deliver older c
deliver (writes_duty d ∷ older) c = deliver older c
deliver (sets_mailbox ∷ older) c = record (deliver older c) { sdma_mailbox = 1 }
deliver (interrupts ∷ older) c = sdma_interrupt (deliver older c)

interrupt-Runs : (c d : Cnc) → Runs c d → Runs c (sdma_interrupt d)
unfolding sdma_interrupt
interrupt-Runs c d r = ground arith

end_byte-Runs :
    (c : Cnc) (e : Engine) → Runs c (deliver e.outputs c) → Runs c (deliver (end_byte e).outputs c)
unfolding end_byte deliver
end_byte-Runs c e r = let i = interrupt-Runs c _ r in ground arith

power-Runs :
    (c : Cnc) (byte : ℕ) (e : Engine)
    → Runs c (deliver e.outputs c)
    → Runs c (deliver (play_power byte e).1.outputs c)
unfolding play_power deliver
power-Runs c byte e r =
    let plain = end_byte-Runs c e r in
    let f = record e { after_power = true; outputs = writes_duty (byte % 128) ∷ e.outputs } in
    let duty = end_byte-Runs c f r in ground arith

byte-Runs :
    (c : Cnc) (m : Memory) (e : Engine)
    → has_data m e ≡ true
    → Runs c (deliver e.outputs c)
    → Runs c (deliver (consume m e).1.outputs c)
unfolding consume play_pulse deliver
byte-Runs c m e y r = elim (Bool-cases (bit 7 (byte_under m e))) [
  | inl b ↦ rw (y, b) (power-Runs c (byte_under m e) e r)
  | inr b ↦ rw (y, b) (end_byte-Runs c (play_pulse (pulse_under m e) e) r)
]

-- What the driver is left with at the end of the data.
pub record HasEnded (c d : Cnc) : Type 0 where
  pub state : d.state ≡ (if c.streaming then underrun else idle)
  pub underruns :
      d.underrun_count ≡ (if c.streaming then add32 c.underrun_count 1 else c.underrun_count)
  pub still : IsStill d.calls

mailbox_ends : (c d : Cnc) → Runs c d → HasEnded c (sdma_interrupt (record d { sdma_mailbox = 1 }))
unfolding sdma_interrupt driver_stop
mailbox_ends c d r =
    let f = record d { sdma_mailbox = 1 } in
    let g = record f { underrun_count = add32 d.underrun_count 1 } in
    let a = (stop-IsStill true idle f).0 in
    let b = (stop-IsStill true underrun g).0 in
    record { state = ground arith; underruns = ground arith; still = ground arith }

end_stops :
    (c : Cnc) (m : Memory) (e : Engine)
    → has_data m e ≡ false
    → e.direction ≢ 0
    → Runs c (deliver e.outputs c)
    → HasEnded c (deliver (consume m e).1.outputs c)
unfolding consume all_done deliver
end_stops c m e n p r = let q = mailbox_ends c (deliver e.outputs c) r in rw n (ground arith)

-- The committed driver as the one that the job runs on.
own-Runs : {a b : Cnc} → Runs a b → Runs b (deliver [] b)
unfolding deliver
own-Runs r = record { state = r.state; mailbox = r.mailbox; streaming = refl; underruns = refl }

Runs-HasEnded : {a b d : Cnc} → Runs a b → HasEnded b d → HasEnded a d
Runs-HasEnded {a} {b} {d} r e = record {
  state = ground (arith, r.streaming, e.state);
  underruns = ground (arith, r.streaming, r.underruns, e.underruns);
  still = e.still;
}

module _ (k : Kfifo) (cp : Copier) where
  bytes-HasEnded :
      (c : Cnc) (turns n : ℕ) (s : System)
      → IsFed k turns s
      → s.engine.direction ≡ 1
      → sub32 s.engine.tail s.engine.head ≡ n
      → Runs c (deliver s.engine.outputs c)
      → HasEnded c (deliver (run k cp (byte_steps n) s).2.engine.outputs c)
  unfolding run step
  bytes-HasEnded c turns zero s v f l r =
      let same = equal_words _ _ v.tail_word v.head_word l in
      end_stops c s.memory s.engine (ground (arith, same)) (ground arith) r
  bytes-HasEnded c turns (suc n) s v f l r =
      let y = (has_data_iff k turns s v).1 f (omega arith) in
      let d = data_byte s.memory s.engine y in
      let at = d.2 ∙ ap (λ x. add32 s.engine.head x) f in
      let less = next_ahead _ _ v.tail_word v.head_word (omega arith) in
      bytes-HasEnded c turns n (after_byte k s) (consume-IsFed k turns s v) (d.0 ∙ f)
        (rw (at, d.1, less) (omega arith)) (byte-Runs c s.memory s.engine y r)

  outputs-start :
      (env : StartEnv) (opts : RunOptions) (s : System)
      → (start_forward k cp env opts s).engine.outputs ≡ s.engine.outputs
  unfolding start_forward
  outputs-start env opts s = ground arith

  -- A job runs to its end: from an idle driver with no fault recorded, a fed ring that does not read
  -- as empty and an engine that has written nothing yet, where the kernel's services succeed, a run
  -- that plays forward starts, the engine plays just the bytes that are still to play, in their
  -- order, and is parked, and the interrupts that it raises, with nothing else in between, then leave
  -- the driver idle, or where it streams in the underrun state with one more counted, with every
  -- step, direction and laser line still.
  pub job_completes :
      (turns : ℕ) (env : StartEnv) (opts : RunOptions) (s : System)
      → IsFed k turns s
      → IsGood env
      → s.cnc.state ≡ idle
      → any_fault s.cnc.triggered_faults ≡ false
      → (is_empty k env.empty_fetch s.cnc).0 ≡ false
      → opts.backward ≡ false
      → s.engine.outputs ≡ []
      → let n = sub32 s.cnc.ring.fifo.in_ix s.engine.head in
        let (taken, played, t) = run k cp (starts env opts ∷ byte_steps n) s in
        let (r, c) = run_with_options k env opts (λ e. e) (λ e. e) s.cnc in
        (r ≡ ok)
        × (c.state ≡ running)
        × (played ≡ contents s)
        × (t.engine.direction ≡ 0)
        × HasEnded s.cnc (deliver t.engine.outputs c)
  unfolding run step
  job_completes turns env opts s v g i f e b o =
      let t = start_forward k cp env opts s in
      let c = (run_with_options k env opts (λ e. e) (λ e. e) s.cnc).1 in
      let (ret, r) = started-Runs k env opts s.cnc g i f e b in
      let (ring, head, moved) = start_lem k cp env opts s b in
      let (tail, direction) = loaded k cp env opts s g.regs_written in
      let n = sub32 s.cnc.ring.fifo.in_ix s.engine.head in
      let p = run_plays_out k cp turns env opts s v b g.regs_written in
      let d =
        bytes-HasEnded c turns n t (start-IsFed k cp turns env opts s v b) direction
          (rw (tail, head) refl) (rw (outputs-start env opts s ∙ o) (own-Runs r)) in
      (ret, r.state, p.0, p.2, Runs-HasEnded r d)
