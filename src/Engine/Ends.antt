-- ===== src/Engine/Ends.antt =====
-- An event on the engine ends: the bytes that are taken at once, power levels, run out.
use kernel_module_glowforge.Base.{
  ℕ, zero, suc, ◌+◌, ◌*◌, ◌-◌, ◌<◌, ◌≤◌, ◌%◌, ◌^◌, ◌≡◌, ◌⊎◌, inl, inr, true, false, add32,
  Bool-cases, clash, arith, refl, sym, ap, ◌∙◌, ◌∷◌,
}
use Prim.Native.Nat.{◌∣◌}
use mathlib.Core.Path.{subst}
use native.Mathlib.Nat.{
  dvd-mul_left, mod-mod_of_dvd, mod-add-mod, add-mod-mod, add-mod_right, mod-lt,
  add-mul-mod_self_right,
}
use kernel_module_glowforge.Engine.{Engine, writes_duty}
use kernel_module_glowforge.Engine.Bytes.{
  Memory, consume, byte_under, has_data, play_power, end_byte,
}
use kernel_module_glowforge.Engine.Tick.{consume_run, consume_run-ends, consume_run-goes_on}

-- A byte that is done leaves the direction, the tail and the flag, and moves the head.
IsNext : Engine → Engine → Type 0
IsNext e d =
    (d.direction ≡ e.direction)
    × (d.tail ≡ e.tail)
    × (d.head ≡ add32 e.head e.direction)
    × (d.after_power ≡ e.after_power)

end_byte-IsNext : (e : Engine) → IsNext e (end_byte e)
unfolding IsNext end_byte
end_byte-IsNext e = ground arith

-- What left an event going on: a power level, the first of its run where it is played forward.
abbrev WentOn : Engine → Engine → Type 0
WentOn e d =
    (d.direction ≡ e.direction)
    × (d.tail ≡ e.tail)
    × (d.head ≡ add32 e.head e.direction)
    × (e.direction < 2 ^ 31 → (e.after_power ≡ false) × (d.after_power ≡ true))

power_on : (byte : ℕ) (e : Engine) → (play_power byte e).0 ≡ true → WentOn e (play_power byte e).1
unfolding IsNext play_power
power_on byte e h = ground (
  arith,
  end_byte-IsNext e,
  end_byte-IsNext (record e { after_power = true; outputs = writes_duty (byte % 128) ∷ e.outputs }),
)

none_left : (n : ℕ) → suc n ≤ 0 → ⊥
none_left n l = omega arith

pub some_size : (k s : ℕ) → k * s ≡ 2 ^ 32 → 0 < s
some_size k zero h = elim (no_size k h) [ ]
  where
    no_size : (k : ℕ) → k * zero ≡ 2 ^ 32 → ⊥
    no_size k h = ground arith
some_size k (suc s) h = omega arith

module _ (m : Memory) where
  went_on : (e : Engine) → (consume m e).0 ≡ true → (has_data m e ≡ true) × WentOn e (consume m e).1
  unfolding consume
  went_on e h = ground (arith, power_on (byte_under m e) e)

  second_ends : (e : Engine) → e.direction < 2 ^ 31 → e.after_power ≡ true → (consume m e).0 ≡ false
  second_ends e b a = elim (Bool-cases (consume m e).0) [
    | inl h ↦ elim (clash _ (((went_on e h).1.3 b).0) a) [ ]
    | inr h ↦ h
  ]

  ended : (n : ℕ) (e : Engine) → (consume m e).0 ≡ false → (consume_run m (suc n) e).0 ≡ true
  ended n e h = rw (consume_run-ends m n e h) refl

  -- `g` more bytes lie between the head and the tail, going backward.
  behind :
      (k h t g : ℕ)
      → k * m.size ≡ 2 ^ 32
      → h % m.size ≡ (t + suc g) % m.size
      → add32 h 0xFFFFFFFF % m.size ≡ (t + g) % m.size
  behind k h t g s e =
      mod-mod_of_dvd m.size (h + 0xFFFFFFFF) (subst (λ x. m.size ∣ x) s (dvd-mul_left m.size k))
      ∙ sym (mod-add-mod h m.size 0xFFFFFFFF)
      ∙ ap (λ x. (x + 0xFFFFFFFF) % m.size) e
      ∙ mod-add-mod (t + suc g) m.size 0xFFFFFFFF
      ∙ ap (λ x. x % m.size) (round_trip k t g s)
      ∙ add-mul-mod_self_right (t + g) k m.size
    where
      round_trip : (k t g : ℕ) → k * m.size ≡ 2 ^ 32 → t + suc g + 0xFFFFFFFF ≡ t + g + k * m.size
      round_trip k t g s = omega arith

  at_tail :
      (e : Engine) (t : ℕ)
      → t ≡ e.tail
      → e.head % m.size ≡ (t + zero) % m.size
      → (consume m e).0 ≡ false
  unfolding consume
  at_tail e t q h = ground arith

  backward_ends :
      (n g k : ℕ) (e : Engine)
      → g ≤ n
      → k * m.size ≡ 2 ^ 32
      → e.direction ≡ 0xFFFFFFFF
      → e.head % m.size ≡ (e.tail + g) % m.size
      → (consume_run m (suc n) e).0 ≡ true
  backward_ends n zero k e l s b h = ended n e (at_tail e e.tail refl h)
  backward_ends zero (suc g) k e l s b h = elim (none_left g l) [ ]
  backward_ends (suc n) (suc g) k e l s b h = elim (Bool-cases (consume m e).0) [
    | inl on ↦
        let w = (went_on e on).1 in
        let d = (consume m e).1 in
        rw (consume_run-goes_on m (suc n) e on) (
          backward_ends n g k d (omega arith) s (w.0 ∙ b)
            (rw (w.2, w.1, b) (behind k e.head e.tail g s h)))
    | inr off ↦ ended (suc n) e off
  ]

  forward_ends :
      (n : ℕ) (e : Engine) → 0 < n → e.direction < 2 ^ 31 → (consume_run m (suc n) e).0 ≡ true
  forward_ends zero e l b = elim (none_left 0 l) [ ]
  forward_ends (suc n) e l b = elim (Bool-cases (consume m e).0) [
    | inl on ↦
        let w = (went_on e on).1 in
        let d = (consume m e).1 in
        rw (consume_run-goes_on m (suc n) e on) (ended n d (second_ends d (rw w.0 b) (w.3 b).1))
    | inr off ↦ ended (suc n) e off
  ]

  -- How far the head is ahead of the tail, within the ring.
  distance :
      (h t : ℕ)
      → 0 < m.size
      → let g = (h + (m.size - t % m.size)) % m.size in
        (g ≤ m.size) × (h % m.size ≡ (t + g) % m.size)
  distance h t p =
      let s = m.size in
      let x = h + (s - t % s) in
      let r = mod-lt t p in
      let around : t % s + x ≡ h + s = omega (arith, r) in
      (
        omega (arith, mod-lt x p),
        sym (
            add-mod-mod t x s
            ∙ sym (mod-add-mod t s x)
            ∙ ap (λ y. y % s) around
            ∙ add-mod_right h s),
      )

  -- An event on the engine ends: where the ring's size divides 2 ^ 32 and the direction is not
  -- negative, or is the one that the driver sets for a backward run, the bytes taken at once run out
  -- within the ring's size and one more, which is what an event runs on.
  pub event_ends :
      (k : ℕ) (e : Engine)
      → k * m.size ≡ 2 ^ 32
      → (e.direction < 2 ^ 31) ⊎ (e.direction ≡ 0xFFFFFFFF)
      → (consume_run m (suc m.size) e).0 ≡ true
  event_ends k e s (inl f) = forward_ends m.size e (some_size k m.size s) f
  event_ends k e s (inr b) =
      let g = distance e.head e.tail (some_size k m.size s) in
      backward_ends m.size _ k e g.0 s b g.1
