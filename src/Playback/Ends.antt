-- ===== src/Playback/Ends.antt =====
-- A run plays out what is written, and parks the engine.
use kernel_module_glowforge.Base.{
  ℕ, zero, suc, false, ◌<◌, ◌^◌, ◌≡◌, List, [], ◌∷◌, ◌++◌, refl, sym, ap, ◌∙◌, add32, sub32, All,
  arith,
}
use mathlib.Core.List.{append-nil}
use kernel_module_glowforge.Ring.{Kfifo}
use kernel_module_glowforge.Playback.{
  Copier, System, Step, starts, consumes_byte, start_forward, step, run,
}
use kernel_module_glowforge.Cnc.Run.{StartEnv, RunOptions}
use kernel_module_glowforge.Playback.Plays.{
  after_byte, has_data_iff, consume-IsFed, no_data, data_byte, equal_words, next_ahead,
}
use kernel_module_glowforge.Playback.Fed.{contents, IsFed, IsAllowed}
use kernel_module_glowforge.Playback.Starts.{start_lem, start_contents, start-IsFed}
use kernel_module_glowforge.Playback.Order.{plays_in_order}

-- Bytes of the engine, one more than the number.
abbrev pub byte_steps : ℕ → List Step
byte_steps zero = consumes_byte ∷ []
byte_steps (suc n) = consumes_byte ∷ byte_steps n

module _ (k : Kfifo) (cp : Copier) where
  byte_steps-IsAllowed : (n : ℕ) → All IsAllowed (byte_steps n)
  byte_steps-IsAllowed zero = (tt, tt)
  byte_steps-IsAllowed (suc n) = (tt, byte_steps-IsAllowed n)

  takes_none : (n : ℕ) (s : System) → (run k cp (byte_steps n) s).0 ≡ []
  unfolding run step
  takes_none zero s = refl
  takes_none (suc n) s = takes_none n (after_byte k s)

  abbrev AtEnd : System → System → Type 0
  AtEnd s t =
      (t.engine.direction ≡ 0)
      × (t.engine.head ≡ s.engine.tail)
      × (t.cnc.ring.fifo.in_ix ≡ s.cnc.ring.fifo.in_ix)

  parks :
      (turns n : ℕ) (s : System)
      → IsFed k turns s
      → s.engine.direction ≡ 1
      → sub32 s.engine.tail s.engine.head ≡ n
      → AtEnd s (run k cp (byte_steps n) s).2
  unfolding run step
  parks turns zero s v f l =
      let same = equal_words _ _ v.tail_word v.head_word l in
      let d = no_data s.memory s.engine (ground (arith, same)) in (d.0, d.2 ∙ same, refl)
  parks turns (suc n) s v f l =
      let y = (has_data_iff k turns s v).1 f (omega arith) in
      let d = data_byte s.memory s.engine y in
      let at = d.2 ∙ ap (λ x. add32 s.engine.head x) f in
      let less = next_ahead _ _ v.tail_word v.head_word (omega arith) in
      let q =
        parks turns n (after_byte k s) (consume-IsFed k turns s v) (d.0 ∙ f)
          (rw (at, d.1, less) (omega arith)) in
      (q.0, q.1 ∙ d.1, q.2)

  -- What is published is played out, all of it.
  plays_out :
      (turns n : ℕ) (s : System)
      → IsFed k turns s
      → s.engine.direction ≡ 1
      → s.engine.tail ≡ s.cnc.ring.fifo.in_ix
      → sub32 s.engine.tail s.engine.head ≡ n
      → let (taken, played, t) = run k cp (byte_steps n) s in
        (played ≡ contents s)
        × (contents t ≡ [])
        × (t.engine.direction ≡ 0)
        × (t.engine.head ≡ s.engine.tail)
  plays_out turns n s v f e l =
      let t = (run k cp (byte_steps n) s).2 in
      let (stopped, at, kept) = parks turns n s v f l in
      let account = plays_in_order k cp turns (byte_steps n) s v (byte_steps-IsAllowed n) in
      let none : contents t ≡ [] = rw (at, kept, e, nothing s.cnc.ring.fifo.in_ix v.in_word) refl in
      (
        sym (append-nil _)
            ∙ ap (λ l. (run k cp (byte_steps n) s).1 ++ l) (sym none)
            ∙ sym account.1
            ∙ ap (λ l. contents s ++ l) (takes_none n s)
            ∙ append-nil _,
        none,
        stopped,
        at,
      )
    where
      nothing : (i : ℕ) → i < 2 ^ 32 → sub32 i i ≡ 0
      nothing i b = ground arith

  pub loaded :
      (env : StartEnv) (opts : RunOptions) (s : System)
      → env.regs_status ≡ 0
      → let t = start_forward k cp env opts s in
        (t.engine.tail ≡ s.cnc.ring.fifo.in_ix) × (t.engine.direction ≡ 1)
  unfolding start_forward
  loaded env opts s l = ground arith

  -- A run plays out: where the registers of a start that plays forward are loaded, in a ring that is
  -- fed, the engine plays just the bytes that are still to play, in their order, finds the end of the
  -- data at the next byte, and is parked there with nothing left to play.
  pub run_plays_out :
      (turns : ℕ) (env : StartEnv) (opts : RunOptions) (s : System)
      → IsFed k turns s
      → opts.backward ≡ false
      → env.regs_status ≡ 0
      → let n = sub32 s.cnc.ring.fifo.in_ix s.engine.head in
        let (taken, played, t) = run k cp (starts env opts ∷ byte_steps n) s in
        (played ≡ contents s)
        × (contents t ≡ [])
        × (t.engine.direction ≡ 0)
        × (t.engine.head ≡ s.cnc.ring.fifo.in_ix)
  unfolding run step
  run_plays_out turns env opts s v b l =
      let t = start_forward k cp env opts s in
      let (ring, head, moved) = start_lem k cp env opts s b in
      let fed = start-IsFed k cp turns env opts s v b in
      let (tail, direction) = loaded env opts s l in
      let n = sub32 s.cnc.ring.fifo.in_ix s.engine.head in
      let (played, none, parked, at) =
        plays_out turns n t fed direction (tail ∙ ap (λ r. r.fifo.in_ix) (sym ring))
          (rw (tail, head) refl) in
      (played ∙ sym (start_contents k cp env opts s b), none, parked, at ∙ tail)
