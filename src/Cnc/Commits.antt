-- ===== src/Cnc/Commits.antt =====
-- What other contexts can do to a driver that does not run, and to the count of calls of the chain.
use kernel_module_glowforge.Base.{
  ℕ, suc, ◌≤◌, ◌≡◌, ◌≢◌, Bool, true, false, ◌||◌, ◌⊎◌, inl, inr, Bool-cases, List, [], ◌∷◌, arith,
}
use kernel_module_glowforge.Kernel.{Call, dms_notify}
use kernel_module_glowforge.Ring.{Kfifo}
use kernel_module_glowforge.Cnc.State.{Cnc, running}
use kernel_module_glowforge.Cnc.Event.{Event, ramp_tick, commits, step, steps}

abbrev pub is_commit : Event → Bool
is_commit (commits env opts gen) = true
is_commit _ = false

-- A start is committed among the events.
abbrev pub has_commit : List Event → Bool
has_commit [] = false
has_commit (e ∷ es) = is_commit e || has_commit es

-- How often the chain of the dead man's switch was called.
abbrev pub times_told : List Call → ℕ
times_told [] = 0
times_told (dms_notify ∷ older) = suc (times_told older)
times_told (_ ∷ older) = times_told older

module _ (k : Kfifo) where
  step-stopped :
      (e : Event) (c : Cnc) → is_commit e ≡ false → c.state ≢ running → (step k e c).state ≢ running
  unfolding step
  step-stopped (commits env opts gen) c n s = cc
  step-stopped ramp_tick c n s = ground arith
  step-stopped _ c n s = ground arith

  -- A driver that does not run only runs after events of which one commits a start.
  pub steps-stopped :
      (es : List Event) (c : Cnc)
      → c.state ≢ running
      → ((steps k es c).state ≢ running) ⊎ (has_commit es ≡ true)
  unfolding steps
  steps-stopped [] c s = inl s
  steps-stopped (e ∷ es) c s = elim (Bool-cases (is_commit e)) [
    | inl y ↦ inr (ground arith)
    | inr n ↦ elim (steps-stopped es (step k e c) (step-stopped e c n s)) [
      | inl h ↦ inl h
      | inr h ↦ inr (ground arith)
    ]
  ]

  step-times_told : (e : Event) (c : Cnc) → times_told c.calls ≤ times_told (step k e c).calls
  unfolding step
  step-times_told ramp_tick c = ground arith
  step-times_told _ c = ground arith

  pub steps-times_told :
      (es : List Event) (c : Cnc) → times_told c.calls ≤ times_told (steps k es c).calls
  unfolding steps
  steps-times_told [] c = omega arith
  steps-times_told (e ∷ es) c =
      let h = step-times_told e c in let i = steps-times_told es (step k e c) in omega arith
