-- ===== src/Engine/Laser.antt =====
-- The laser lines in the words that the engine writes.
use kernel_module_glowforge.Base.{
  ℕ, zero, suc, ◌≤◌, ◌<◌, ◌≡◌, ◌⊎◌, inl, inr, Bool, true, not, ◌&&◌, List, [], ◌∷◌, ◌^◌, ◌%◌, arith,
}
use kernel_module_glowforge.Engine.{Lines, Engine, Output, writes_lines, writes_duty}
use kernel_module_glowforge.Engine.Bytes.{
  Memory, consume, is_backward, Pulse, play_pulse, play_power, end_byte, all_done, pulse_under,
  byte_under,
}
use kernel_module_glowforge.Engine.Tick.{consumes}

abbrev pub is_dark : Lines → Bool
is_dark l = not l.laser_enable && not l.laser_on_head

-- Every word written has both laser lines low.
abbrev pub all_dark : List Output → Bool
all_dark [] = true
all_dark (writes_lines l ∷ older) = is_dark l && all_dark older
all_dark (_ ∷ older) = all_dark older

-- Nothing is to fire: the engine is parked, or plays backward.
abbrev pub IsRetracing : Engine → Type 0
IsRetracing e = (e.direction ≡ 0) ⊎ (is_backward e.direction ≡ true)

-- The lead of a resume: both laser lines are inhibited.
abbrev pub IsInhibited : Engine → Type 0
IsInhibited e = (e.inhibit.laser_enable ≡ true) × (e.inhibit.laser_on_head ≡ true)

abbrev pub IsDark : Engine → Type 0
IsDark e = (is_dark e.lines ≡ true) × (all_dark e.outputs ≡ true)

absurd : (n : ℕ) → suc n ≡ 0 → ⊥
absurd n h = omega arith

-- What a byte of a lead of `n` more leaves: the lines stay inhibited up to the waypoint.
abbrev IsLed : ℕ → Engine → Type 0
IsLed n d =
    IsDark d
    × (IsRetracing d ⊎ ((IsInhibited d × (n ≤ d.countdown) × (d.countdown < 2 ^ 32)) ⊎ (n ≡ 0)))

all_done-IsLed : (e : Engine) (n : ℕ) → IsDark e → IsLed n (all_done e)
unfolding all_done
all_done-IsLed e n h = ground arith

end_byte-IsLed :
    (e : Engine) (n : ℕ)
    → IsDark e
    → IsInhibited e
    → suc n ≤ e.countdown
    → e.countdown < 2 ^ 32
    → IsLed n (end_byte e)
unfolding end_byte
end_byte-IsLed e n h i c b = ground arith

pulse_led :
    (p : Pulse) (e : Engine)
    → IsDark e
    → IsInhibited e
    → let d = play_pulse p e in IsDark d × IsInhibited d × (d.countdown ≡ e.countdown)
unfolding play_pulse
pulse_led p e h i = ground arith

play_power-IsLed :
    (byte : ℕ) (e : Engine) (n : ℕ)
    → IsDark e
    → IsInhibited e
    → suc n ≤ e.countdown
    → e.countdown < 2 ^ 32
    → IsLed n (play_power byte e).1
unfolding play_power
play_power-IsLed byte e n h i c b = ground (
  arith,
  end_byte-IsLed e n h i c b,
  end_byte-IsLed (record e { after_power = true; outputs = writes_duty (byte % 128) ∷ e.outputs }) n
      h i c b,
)

module _ (m : Memory) where
  retraced :
      (e : Engine) → IsDark e → IsRetracing e → let d = (consume m e).1 in IsDark d × IsRetracing d
  unfolding consume play_pulse play_power end_byte all_done
  retraced e h r = ground arith

  led :
      (e : Engine) (n : ℕ)
      → IsDark e
      → IsInhibited e
      → suc n ≤ e.countdown
      → e.countdown < 2 ^ 32
      → IsLed n (consume m e).1
  unfolding consume
  led e n h i c b =
      let q = pulse_led (pulse_under m e) e h i in
      ground (
        arith,
        all_done-IsLed e n h,
        play_power-IsLed (byte_under m e) e n h i c b,
        end_byte-IsLed (play_pulse (pulse_under m e) e) n q.0 q.1 (omega (arith, q.2))
            (omega (arith, q.2)),
      )

  retrace-IsDark : (n : ℕ) (e : Engine) → IsDark e → IsRetracing e → IsDark (consumes m n e)
  unfolding consumes
  retrace-IsDark zero e h r = h
  retrace-IsDark (suc n) e h r = let s = retraced e h r in retrace-IsDark n (consume m e).1 s.0 s.1

  last-IsDark : (n : ℕ) (e : Engine) → n ≡ 0 → IsDark e → IsDark (consumes m n e)
  unfolding consumes
  last-IsDark zero e z h = h
  last-IsDark (suc n) e z h = elim (absurd n z) [ ]

  lead-IsDark :
      (n : ℕ) (e : Engine)
      → IsDark e
      → IsInhibited e
      → n ≤ e.countdown
      → e.countdown < 2 ^ 32
      → IsDark (consumes m n e)
  unfolding consumes
  lead-IsDark zero e h i c b = h
  lead-IsDark (suc n) e h i c b =
      let s = led e n h i c b in
      elim s.1 [
        | inl r ↦ retrace-IsDark n (consume m e).1 s.0 r
        | inr (inl t) ↦ lead-IsDark n (consume m e).1 s.0 t.0 t.1 t.2
        | inr (inr z) ↦ last-IsDark n (consume m e).1 z s.0
      ]

  -- From a state with both laser lines low, and no word with one high written yet, every word that the
  -- engine writes has them low: however
  -- many bytes it takes while it is parked or plays backward, and, with both lines inhibited, as many
  -- bytes as the waypoint counter holds, whatever the bytes are.
  pub laser_stays_off :
      (n : ℕ) (e : Engine)
      → IsDark e
      → (IsRetracing e → all_dark (consumes m n e).outputs ≡ true)
        × (IsInhibited e
            → n ≤ e.countdown
            → e.countdown < 2 ^ 32
            → all_dark (consumes m n e).outputs ≡ true)
  laser_stays_off n e h = (λ r. (retrace-IsDark n e h r).1, λ i c b. (lead-IsDark n e h i c b).1)
