-- ===== src/Engine/Retrace.antt =====
-- A forward run and a backward run of as many bytes: what the retrace undoes.
use kernel_module_glowforge.Base.{
  ℕ, zero, suc, ◌<◌, ◌%◌, ◌^◌, ◌≡◌, ◌∷◌, refl, Bool, true, not, ◌&&◌, if◌then◌else◌, add32, ap,
  arith,
}
use kernel_module_glowforge.Engine.{Engine, writes_duty}
use kernel_module_glowforge.Engine.Bytes.{
  Memory, Pulse, pulse_of, bit, consume, play_pulse, play_power, end_byte, has_data, moved,
  reversed,
}
use kernel_module_glowforge.Engine.Tick.{consumes}

pub data Axis : Type 0 where
  axis_x axis_y axis_z : Axis

abbrev pub position : Axis → Engine → ℕ
position axis_x e = e.x
position axis_y e = e.y
position axis_z e = e.z

-- What a byte adds to a position counter when it is played forward: 0, 1, or 2 ^ 32 - 1 for a step
-- down.
abbrev pub unit_step : Bool → Bool → ℕ
unit_step step up = if step then (if up then 1 else 0xFFFFFFFF) else 0

abbrev pub pulse_shift : Axis → Pulse → ℕ
pulse_shift axis_x p = unit_step p.x_step (not p.x_dir)
pulse_shift axis_y p = unit_step p.y_step p.y_dir
pulse_shift axis_z p = unit_step p.z_step p.z_dir

abbrev pub shift : Axis → ℕ → ℕ
shift a byte = if bit 7 byte then 0 else pulse_shift a (pulse_of byte)

-- A byte that is done moves the head by the direction, and no position.
abbrev IsPassed : Axis → Engine → Engine → Type 0
IsPassed a e d =
    (d.direction ≡ e.direction)
    × (d.head ≡ add32 e.head e.direction)
    × (position a d ≡ position a e)

end_byte-IsPassed : (a : Axis) (e : Engine) → IsPassed a e (end_byte e)
unfolding end_byte
end_byte-IsPassed axis_x e = ground arith
end_byte-IsPassed axis_y e = ground arith
end_byte-IsPassed axis_z e = ground arith

play_power-IsPassed : (a : Axis) (byte : ℕ) (e : Engine) → IsPassed a e (play_power byte e).1
unfolding play_power
play_power-IsPassed a byte e =
    let d = record e { after_power = true; outputs = writes_duty (byte % 128) ∷ e.outputs } in
    ground (arith, end_byte-IsPassed a e, at_record a byte e, end_byte-IsPassed a d)
  where
    at_record :
        (a : Axis) (byte : ℕ) (e : Engine)
        → position a
            (record e { after_power = true; outputs = writes_duty (byte % 128) ∷ e.outputs })
          ≡ position a e
    at_record axis_x byte e = refl
    at_record axis_y byte e = refl
    at_record axis_z byte e = refl

-- A counter moved, and moved the other way.
moved_up : (step up : Bool) (n : ℕ) → moved step up n % 2 ^ 32 ≡ add32 n (unit_step step up)
moved_up step up n = ground arith

moved_back :
    (step up : Bool) (n : ℕ) → add32 (moved step (not up) n) (unit_step step up) ≡ n % 2 ^ 32
moved_back step up n = ground arith

forward_pulse :
    (a : Axis) (p : Pulse) (e : Engine)
    → let d = play_pulse p e in
      (d.direction ≡ e.direction)
      × (d.head ≡ e.head)
      × (position a d % 2 ^ 32 ≡ add32 (position a e) (pulse_shift a p))
unfolding play_pulse
forward_pulse axis_x p e = (refl, refl, moved_up p.x_step (not p.x_dir) e.x)
forward_pulse axis_y p e = (refl, refl, moved_up p.y_step p.y_dir e.y)
forward_pulse axis_z p e = (refl, refl, moved_up p.z_step p.z_dir e.z)

backward_pulse :
    (a : Axis) (p : Pulse) (e : Engine)
    → let d = play_pulse (reversed p) e in
      (d.direction ≡ e.direction)
      × (d.head ≡ e.head)
      × (add32 (position a d) (pulse_shift a p) ≡ position a e % 2 ^ 32)
unfolding play_pulse
backward_pulse axis_x p e = (refl, refl, moved_back p.x_step (not p.x_dir) e.x)
backward_pulse axis_y p e = (refl, refl, moved_back p.y_step p.y_dir e.y)
backward_pulse axis_z p e = (refl, refl, moved_back p.z_step p.z_dir e.z)

-- The engine turned round for a backward run, with the dead stop `t`.
abbrev pub turned : ℕ → Engine → Engine
turned t e = record e { tail = t; direction = 0xFFFFFFFF }

turned_stays : (a : Axis) (e : Engine) (t : ℕ) → position a (turned t e) ≡ position a e
turned_stays axis_x e t = refl
turned_stays axis_y e t = refl
turned_stays axis_z e t = refl

split_and : (p q : Bool) → p && q ≡ true → (p ≡ true) × (q ≡ true)
split_and p q h = ground arith

cancelled :
    (out back on first start once last : ℕ)
    → add32 out once ≡ back % 2 ^ 32
    → add32 back last ≡ add32 on once
    → on % 2 ^ 32 ≡ add32 start first
    → add32 out last ≡ add32 start first
cancelled out back on first start once last h g f = omega arith

module _ (m : Memory) where
  abbrev pub byte_of : ℕ → ℕ
  byte_of head = m.byte_at (head % m.size)

  -- There is data for all of `n` bytes.
  abbrev pub plays : ℕ → Engine → Bool
  plays zero e = true
  plays (suc n) e = has_data m e && plays n (consume m e).1

  forward_byte :
      (a : Axis) (e : Engine)
      → e.direction ≡ 1
      → has_data m e ≡ true
      → let d = (consume m e).1 in
        (d.direction ≡ 1)
        × (d.head ≡ add32 e.head 1)
        × (position a d % 2 ^ 32 ≡ add32 (position a e) (shift a (byte_of e.head)))
  unfolding consume
  forward_byte a e f h =
      let p = pulse_of (byte_of e.head) in
      ground (
        arith,
        play_power-IsPassed a (byte_of e.head) e,
        forward_pulse a p e,
        end_byte-IsPassed a (play_pulse p e),
      )

  backward_byte :
      (a : Axis) (e : Engine)
      → e.direction ≡ 0xFFFFFFFF
      → has_data m e ≡ true
      → let d = (consume m e).1 in
        (d.direction ≡ 0xFFFFFFFF)
        × (d.head ≡ add32 e.head 0xFFFFFFFF)
        × (add32 (position a d) (shift a (byte_of e.head)) ≡ position a e % 2 ^ 32)
  unfolding consume
  backward_byte a e f h =
      let p = pulse_of (byte_of e.head) in
      ground (
        arith,
        play_power-IsPassed a (byte_of e.head) e,
        backward_pulse a p e,
        end_byte-IsPassed a (play_pulse (reversed p) e),
      )

  -- One byte less of a run, at its end.
  consumes_last : (n : ℕ) (e : Engine) → consumes m (suc n) e ≡ (consume m (consumes m n e)).1
  unfolding consumes
  consumes_last zero e = refl
  consumes_last (suc n) e = consumes_last n (consume m e).1

  plays_last :
      (n : ℕ) (e : Engine)
      → plays (suc n) e ≡ true
      → (plays n e ≡ true) × (has_data m (consumes m n e) ≡ true)
  unfolding consumes
  plays_last zero e h = ground arith
  plays_last (suc n) e h =
      let g = split_and (has_data m e) (plays (suc n) (consume m e).1) h in
      let r = plays_last n (consume m e).1 g.1 in (rw (g.0, r.0) refl, r.1)

  retraced :
      (a : Axis) (n : ℕ) (e : Engine) (t : ℕ)
      → e.direction ≡ 1
      → e.head < 2 ^ 32
      → plays n e ≡ true
      → plays n (turned t (consumes m n e)) ≡ true
      → let f = consumes m n e in
        let d = consumes m n (turned t f) in
        (d.direction ≡ 0xFFFFFFFF)
        × (d.head ≡ e.head)
        × (add32 (position a d) (shift a (byte_of f.head))
            ≡ add32 (position a e) (shift a (byte_of e.head)))
  unfolding consumes
  retraced a zero e t f b h g = (refl, refl, rw (turned_stays a e t) refl)
  retraced a (suc n) e t f b h g =
      let e1 = (consume m e).1 in
      let out = consumes m n e1 in
      let d' = consumes m n (turned t out) in
      let h' = split_and (has_data m e) (plays n e1) h in
      let g' = plays_last n (turned t out) g in
      let first = forward_byte a e f h'.0 in
      let r = retraced a n e1 t first.0 (ground (arith, first.1)) h'.1 g'.0 in
      let last = backward_byte a d' r.0 g'.1 in
      let same = ap byte_of r.1 in
      rw (consumes_last n (turned t out)) (
        last.0,
        ground (arith, last.1, r.1, first.1),
        cancelled _ _ _ _ _ _ _ last.2 (rw same r.2) first.2,
      )

  -- A forward run of `n` bytes and a backward run of `n` bytes from there bring the head back to where
  -- the first began, where there is data for all of them. A position comes back up to the first byte
  -- of the forward run, whose step is not taken back, and the byte that follows that run, whose step
  -- is taken back though it was not played.
  pub retrace_lem :
      (a : Axis) (n : ℕ) (e : Engine) (t : ℕ)
      → e.direction ≡ 1
      → e.head < 2 ^ 32
      → plays n e ≡ true
      → plays n (turned t (consumes m n e)) ≡ true
      → let f = consumes m n e in
        let d = consumes m n (turned t f) in
        (d.head ≡ e.head)
        × (add32 (position a d) (shift a (byte_of f.head))
            ≡ add32 (position a e) (shift a (byte_of e.head)))
  retrace_lem a n e t f b h g = let r = retraced a n e t f b h g in (r.1, r.2)
