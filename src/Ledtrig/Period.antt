-- ===== src/Ledtrig/Period.antt =====
-- The pulser: the range of its counter, and its period.
use kernel_module_glowforge.Base.{
  ℕ, zero, suc, ◌+◌, ◌-◌, ◌≤◌, ◌<◌, ◌≡◌, false, refl, ap, ◌∙◌, arith,
}
use kernel_module_glowforge.Ledtrig.{
  ℤ, pos, negsuc, neg, next, is_at, Pulser, update_pulser, set_pulse_periods,
}

-- The counter lies between the negated off count and the on count.
abbrev pub Between : ℕ → ℕ → ℤ → Type 0
Between on off (pos n) = n ≤ on
Between on off (negsuc n) = suc n ≤ off

abbrev pub CounterFits : Pulser → Type 0
CounterFits p = Between p.pulse_on_count p.pulse_off_count p.pulse_counter

set-CounterFits : (on off : ℕ) (p : Pulser) → CounterFits (set_pulse_periods on off p).1
unfolding set_pulse_periods
set-CounterFits on off p = ground arith

update-CounterFits : (p : Pulser) → CounterFits p → CounterFits (update_pulser p).1
unfolding update_pulser
update-CounterFits p h = ground arith

unfoldable pub updates : ℕ → Pulser → Pulser
updates zero p = p
updates (suc n) p = (update_pulser (updates n p)).1

updates-CounterFits : (n : ℕ) (p : Pulser) → CounterFits p → CounterFits (updates n p)
unfolding updates
updates-CounterFits zero p h = h
updates-CounterFits (suc n) p h = update-CounterFits (updates n p) (updates-CounterFits n p h)

-- Setting the periods brings the counter into their range, whatever it was before, and it stays
-- there over any number of updates.
pub periods-CounterFits :
    (on off n : ℕ) (p : Pulser) → CounterFits (updates n (set_pulse_periods on off p).1)
periods-CounterFits on off n p = updates-CounterFits n _ (set-CounterFits on off p)

-- What `n` updates from a counter of 0 leave.
pub record After (n : ℕ) (p q : Pulser) : Type 0 where
  pub same_on : q.pulse_on_count ≡ p.pulse_on_count
  pub same_off : q.pulse_off_count ≡ p.pulse_off_count
  pub high : 0 < n → n ≤ p.pulse_on_count → q.target ≡ 255
  pub low : p.pulse_on_count < n → n ≤ p.pulse_on_count + p.pulse_off_count → q.target ≡ 0
  pub rising : n ≤ p.pulse_on_count → q.pulse_counter ≡ pos n
  pub falling :
      p.pulse_on_count < n
      → n ≤ p.pulse_on_count + p.pulse_off_count
      → q.pulse_counter ≡ neg (p.pulse_on_count + p.pulse_off_count - n)

next-neg : (m : ℕ) → 0 < m → next (neg m) ≡ neg (m - 1)
next-neg zero h = ground arith
next-neg (suc zero) h = ground arith
next-neg (suc (suc m)) h = ground arith

is_at-neg : (n m : ℕ) → 0 < m → is_at n (neg m) ≡ false
is_at-neg n zero h = ground arith
is_at-neg n (suc m) h = refl

step-After :
    (n : ℕ) (p q : Pulser)
    → 0 < p.pulse_on_count
    → 0 < p.pulse_off_count
    → n < p.pulse_on_count + p.pulse_off_count
    → After n p q
    → After (suc n) p (update_pulser q).1
unfolding update_pulser
step-After n p q on off h a =
    let m = p.pulse_on_count + p.pulse_off_count - n in
    let s = next-neg m (ground arith) in
    let t = next-neg p.pulse_off_count off in
    let u = is_at-neg 0 m (ground arith) in
    let v = is_at-neg q.pulse_on_count m (ground arith) in
    let e : p.pulse_on_count < n → m - 1 ≡ p.pulse_on_count + p.pulse_off_count - suc n =
      ground arith in
    let w : n ≡ p.pulse_on_count
        → p.pulse_off_count - 1 ≡ p.pulse_on_count + p.pulse_off_count - suc n =
      ground arith in
    ground arith

updates-After :
    (n : ℕ) (p : Pulser)
    → 0 < p.pulse_on_count
    → 0 < p.pulse_off_count
    → p.pulse_counter ≡ pos 0
    → n ≤ p.pulse_on_count + p.pulse_off_count
    → After n p (updates n p)
unfolding updates
updates-After zero p on off c h = ground arith
updates-After (suc n) p on off c h =
    step-After n p (updates n p) on off (ground arith) (updates-After n p on off c (ground arith))

-- From a counter of 0 the target is full brightness for as many updates as the on count says, then
-- zero for as many as the off count says, after which the counter is 0 again.
pub pulse_period :
    (n : ℕ) (p : Pulser)
    → 0 < p.pulse_on_count
    → 0 < p.pulse_off_count
    → p.pulse_counter ≡ pos 0
    → (0 < n → n ≤ p.pulse_on_count → (updates n p).target ≡ 255)
      × (p.pulse_on_count < n → n ≤ p.pulse_on_count + p.pulse_off_count → (updates n p).target ≡ 0)
      × ((updates (p.pulse_on_count + p.pulse_off_count) p).pulse_counter ≡ pos 0)
pulse_period n p on off c =
    let period = p.pulse_on_count + p.pulse_off_count in
    let last =
      (updates-After period p on off c (ground arith)).falling (ground arith) (ground arith) in
    let none_left : period - period ≡ 0 = ground arith in
    (
      (λ a b. (updates-After n p on off c (ground arith)).high a b),
      (λ a b. (updates-After n p on off c b).low a b),
      last ∙ ap neg none_left,
    )
