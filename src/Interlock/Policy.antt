-- ===== src/Interlock/Policy.antt =====
-- The policy of the interlock line after any inputs: the line follows the state, and no call of
-- `drive` repeats the level before it.
use kernel_module_glowforge.Base.{
  ℕ, ◌≡◌, ◌≢◌, refl, Bool, true, not, ◌||◌, Option, none, some, List, [], ◌∷◌, inl, inr, arith, ltb,
  ◌==◌, Bool-cases,
}
use kernel_module_glowforge.Interlock.{
  Interlock, wanted_level, apply, init, attach, detach, event, sw_code,
}

-- What the rest of the driver can do to an initialised interlock.
pub data Input : Type 0 where
  attaches : Bool → Input
  detaches : Input
  reports : ℕ → ℕ → ℕ → Input

unfoldable pub step : ℕ → Interlock → Input → Interlock
unfolding attach detach event
step ev_sw il (attaches loop_open) = attach il loop_open
step ev_sw il detaches = detach il
step ev_sw il (reports type code value) = event ev_sw il type code value

-- The interlock after a history of inputs, newest first.
unfoldable pub after : ℕ → List Input → Interlock
after ev_sw [] = init
after ev_sw (i ∷ older) = step ev_sw (after ev_sw older) i

-- The newest entry of a list is this level.
abbrev pub Newest : ℕ → List ℕ → Type 0
Newest n [] = ⊥
Newest n (l ∷ ls) = l ≡ n

-- The list does not begin with this level.
abbrev pub Differs : ℕ → List ℕ → Type 0
Differs n [] = Unit {0}
Differs n (l ∷ ls) = n ≢ l

-- No entry repeats the one before it.
abbrev pub NoRepeat : List ℕ → Type 0
NoRepeat [] = Unit {0}
NoRepeat (l ∷ ls) = Differs l ls × NoRepeat ls

-- The line has the level that the state asks for.
pub record IsDriven (il : Interlock) : Type 0 where
  pub known : il.level ≡ some (wanted_level il)
  pub newest : Newest (wanted_level il) il.driven
  pub no_repeat : NoRepeat il.driven

-- The last level handed over is the newest entry.
abbrev Follows : Option ℕ → List ℕ → Type 0
Follows none ls = ls ≡ []
Follows (some n) ls = Newest n ls × NoRepeat ls

apply-IsDriven_of :
    (a : ℕ) (b : Bool) (o : Option ℕ) (ls : List ℕ)
    → Follows o ls
    → IsDriven (apply (record { attached = a; loop_open = b; level = o; driven = ls }))
unfolding apply
apply-IsDriven_of a b none ls f = ground (arith, f)
apply-IsDriven_of a b (some n) [] f = absurd f.0
apply-IsDriven_of a b (some n) (l ∷ ls) f = ground (arith, f)

init-IsDriven : IsDriven init
unfolding init
init-IsDriven = apply-IsDriven_of 0 true none [] refl

known-Follows : (il : Interlock) → IsDriven il → Follows il.level il.driven
known-Follows il d = rw d.known (d.newest, d.no_repeat)

step-IsDriven : (ev_sw : ℕ) (il : Interlock) (i : Input) → IsDriven il → IsDriven (step ev_sw il i)
unfolding step
step-IsDriven ev_sw il (attaches b) d = apply-IsDriven_of _ _ _ _ (known-Follows il d)
step-IsDriven ev_sw il detaches d = elim (Bool-cases (ltb 0 il.attached)) [
  | inl e ↦ rw (e, detach) (apply-IsDriven_of _ _ _ _ (known-Follows il d))
  | inr e ↦ rw (e, detach) (apply-IsDriven_of _ _ _ _ (known-Follows il d))
]
step-IsDriven ev_sw il (reports t c v) d =
    elim (Bool-cases (not (t == ev_sw) || not (c == sw_code))) [
      | inl e ↦ rw (e, event) d
      | inr e ↦ rw (e, event) (apply-IsDriven_of _ _ _ _ (known-Follows il d))
    ]

-- After any history of attaching, detaching and reporting devices the line has been driven to the
-- level that the state asks for, and no call of the drive callback repeated the level before it.
pub after-IsDriven : (ev_sw : ℕ) (history : List Input) → IsDriven (after ev_sw history)
unfolding after
after-IsDriven ev_sw [] = init-IsDriven
after-IsDriven ev_sw (i ∷ older) = step-IsDriven ev_sw _ i (after-IsDriven ev_sw older)
