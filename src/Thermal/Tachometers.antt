-- ===== src/Thermal/Tachometers.antt =====
-- The tachometers: the interrupts that are held, and the reading.
use kernel_module_glowforge.Base.{
  ℕ, ◌+◌, ◌≤◌, ◌<◌, ◌≡◌, ◌⊎◌, Bool, Option, none, some, List, [], ◌∷◌, ◌++◌, ◌==◌, if◌then◌else◌,
  arith, suc, refl,
}
use kernel_module_glowforge.Kernel.{ok, is_ok}
use kernel_module_glowforge.Thermal.{
  Tachs, IrqCall, request_irq, free_irq, IrqAnswer, teardown_tachs, no_irq, irq_refused,
  irq_granted, teardown_calls, forgotten, init_from, init_tachs, Tach, tach_irq_handler,
  get_tach_value_ns, maximum_tach_period_ns,
}

-- How often an interrupt was requested, was given back, and is recorded.
abbrev pub requested : ℕ → List IrqCall → ℕ
requested n [] = 0
requested n (request_irq m ∷ older) = if m == n then suc (requested n older) else requested n older
requested n (free_irq m ∷ older) = requested n older

abbrev pub freed : ℕ → List IrqCall → ℕ
freed n [] = 0
freed n (free_irq m ∷ older) = if m == n then suc (freed n older) else freed n older
freed n (request_irq m ∷ older) = freed n older

abbrev pub recorded : ℕ → List (Option ℕ) → ℕ
recorded n [] = 0
recorded n (none ∷ irqs) = recorded n irqs
recorded n (some m ∷ irqs) = if m == n then suc (recorded n irqs) else recorded n irqs

-- An interrupt is held once for each channel that records it.
abbrev pub Balanced : ℕ → Tachs → Type 0
Balanced n t = requested n t.irq_calls ≡ freed n t.irq_calls + recorded n t.irq_nums

recorded-append :
    (n m : ℕ) (irqs : List (Option ℕ))
    → recorded n (irqs ++ (some m ∷ [])) ≡ recorded n irqs + recorded n (some m ∷ [])
recorded-append n m [] = ground arith
recorded-append n m (none ∷ irqs) = recorded-append n m irqs
recorded-append n m (some p ∷ irqs) = let h = recorded-append n m irqs in ground arith

teardown_counts :
    (n : ℕ) (irqs : List (Option ℕ)) (older : List IrqCall)
    → (requested n (teardown_calls irqs older) ≡ requested n older)
      × (freed n (teardown_calls irqs older) ≡ freed n older + recorded n irqs)
      × (recorded n (forgotten irqs) ≡ 0)
unfolding teardown_calls forgotten
teardown_counts n [] older = ground arith
teardown_counts n (none ∷ irqs) older = let h = teardown_counts n irqs older in ground arith
teardown_counts n (some m ∷ irqs) older =
    let h = teardown_counts n irqs (free_irq m ∷ older) in ground arith

-- Nothing is held.
abbrev pub Released : ℕ → Tachs → Type 0
Released n t = (requested n t.irq_calls ≡ freed n t.irq_calls) × (recorded n t.irq_nums ≡ 0)

teardown-Released : (n : ℕ) (t : Tachs) → Balanced n t → Released n (teardown_tachs t)
unfolding teardown_tachs
teardown-Released n t h = let s = teardown_counts n t.irq_nums t.irq_calls in ground arith

init_from_lem :
    (n : ℕ) (answers : List IrqAnswer) (t : Tachs)
    → Balanced n t
    → let r = init_from answers t in
      ((r.0 ≡ ok) × Balanced n r.1) ⊎ ((is_ok r.0 ≡ Bool.false) × Released n r.1)
unfolding init_from
init_from_lem n [] t h = ground arith
init_from_lem n (no_irq ∷ answers) t h = let s = teardown-Released n t h in ground arith
init_from_lem n (irq_refused m ∷ answers) t h = let s = teardown-Released n t h in ground arith
init_from_lem n (irq_granted m ∷ answers) t h =
    init_from_lem n answers _ (let s = recorded-append n m t.irq_nums in ground arith)

teardown_forgotten :
    (irqs : List (Option ℕ)) (older : List IrqCall) → teardown_calls (forgotten irqs) older ≡ older
unfolding teardown_calls forgotten
teardown_forgotten [] older = refl
teardown_forgotten (irq ∷ irqs) older = teardown_forgotten irqs older

-- Setting up the tachometers holds each interrupt once for each channel that records it, or fails
-- and holds none; a teardown then gives every one back, once, and a second teardown does nothing.
pub init_tachs_lem :
    (answers : List IrqAnswer) (n : ℕ)
    → let (r, t) = init_tachs answers in
      (((r ≡ ok) × Balanced n t) ⊎ ((is_ok r ≡ Bool.false) × Released n t))
      × Released n (teardown_tachs t)
      × ((teardown_tachs (teardown_tachs t)).irq_calls ≡ (teardown_tachs t).irq_calls)
unfolding init_tachs teardown_tachs
init_tachs_lem answers n =
    let t = (init_tachs answers).1 in
    let h = init_from_lem n answers (record { irq_nums = []; irq_calls = [] }) (ground arith) in
    let s = teardown-Released n t (ground arith) in
    (ground arith, s, teardown_forgotten t.irq_nums _)

-- A reading is the distance of the last two edges, and less than 100 ms; it is 0 where the fan
-- stalled, with no edge in the last 100 ms, or an earlier one further away.
pub tach_reading :
    (edge now later : ℕ) (tach : Tach)
    → tach.last_edge ≡ edge
    → edge ≤ now
    → now ≤ later
    → let value = get_tach_value_ns later (tach_irq_handler now tach) in
      (later < now + maximum_tach_period_ns
        → now < edge + maximum_tach_period_ns
        → edge + value ≡ now)
      × (now + maximum_tach_period_ns ≤ later → value ≡ 0)
      × (edge + maximum_tach_period_ns ≤ now → value ≡ 0)
      × (value < maximum_tach_period_ns)
unfolding get_tach_value_ns tach_irq_handler
tach_reading edge now later tach e h1 h2 = ground arith
