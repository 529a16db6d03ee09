-- ===== src/Playback/Order.antt =====
-- The bytes of the feeder are played once each and in the order written.
use kernel_module_glowforge.Base.{ℕ, ◌≡◌, List, [], ◌∷◌, ◌++◌, sym, ap, ◌∙◌, All}
use mathlib.Core.List.{append-nil, append_assoc}
use kernel_module_glowforge.Ring.{Kfifo}
use kernel_module_glowforge.Playback.{
  Copier, System, Step, writes, starts, consumes_byte, step, run,
}
use kernel_module_glowforge.Playback.Plays.{consume_contents, consume-IsFed}
use kernel_module_glowforge.Playback.Fed.{contents, IsFed, IsAllowed}
use kernel_module_glowforge.Playback.Writes.{write_contents, write-IsFed}
use kernel_module_glowforge.Playback.Starts.{start_contents, start-IsFed}

module _ (k : Kfifo) (cp : Copier) where
  -- One step keeps the account: what was to play and what is taken is what is played and what is left.
  pub step_in_order :
      (turns : ℕ) (a : Step) (s : System)
      → IsFed k turns s
      → IsAllowed a
      → let (taken, played, t) = step k cp a s in
        IsFed k turns t × (contents s ++ taken ≡ played ++ contents t)
  unfolding step
  step_in_order turns (writes w) s v f =
      (write-IsFed k cp turns w s v f, write_contents k cp turns w s v f)
  step_in_order turns (starts env opts) s v f = (
    start-IsFed k cp turns env opts s v f,
    append-nil (contents s) ∙ start_contents k cp env opts s f,
  )
  step_in_order turns consumes_byte s v f =
      (consume-IsFed k turns s v, append-nil (contents s) ∙ consume_contents k turns s v)

  -- The bytes of the feeder are played once each and in the order written, whatever the steps: over
  -- any writes, starts that play forward and bytes of the engine, what was still to play and what the
  -- driver took is what the engine played followed by what is still to play, where the ring's size
  -- divides 2 ^ 32 and is at most a gibibyte, the engine is parked or plays forward up to an index
  -- that is written, the gap is kept free, and no write asks for more bytes than an index and the gap
  -- have room for. All of this but the steps themselves holds after them again.
  pub plays_in_order :
      (turns : ℕ) (steps : List Step) (s : System)
      → IsFed k turns s
      → All IsAllowed steps
      → let (taken, played, t) = run k cp steps s in
        IsFed k turns t × (contents s ++ taken ≡ played ++ contents t)
  unfolding run
  plays_in_order turns [] s v f = (v, append-nil (contents s))
  plays_in_order turns (a ∷ rest) s v f =
      let (taken, played, t) = step k cp a s in
      let one = step_in_order turns a s v f.0 in
      let more = plays_in_order turns rest t one.0 f.1 in
      (
        more.0,
        sym (append_assoc (contents s) taken _)
            ∙ ap (λ l. l ++ (run k cp rest t).0) one.1
            ∙ append_assoc played (contents t) _
            ∙ ap (λ l. played ++ l) more.1
            ∙ sym (append_assoc played _ _),
      )
