-- ===== src/Engine/DeadStop.antt =====
-- Where a backward run starts, from the play position to the dead stop that the driver publishes
-- (`cnc_buffer_backtrack_dead_stop`, src/cnc_buffer.c).
use kernel_module_glowforge.Base.{
  ℕ, zero, suc, ◌+◌, ◌*◌, ◌-◌, ◌<◌, ◌≤◌, ◌%◌, ◌^◌, ◌≡◌, ◌≢◌, ◌⊎◌, inl, inr, true, false, sub32,
  refl, sym, ap, ◌∙◌, arith,
}
use Prim.Native.Nat.{◌∣◌}
use mathlib.Core.Path.{subst}
use native.Mathlib.Nat.{
  dvd-mul_left, mod-mod_of_dvd, mod-add-mod, add-mul-mod_self_right, mod-lt, mod-eq_of_lt,
  mod-eq-sub-mod, suc-mul, zero-mul,
}
use kernel_module_glowforge.Backtrack.{span}
use kernel_module_glowforge.Ring.{Kfifo, unplayed}
use kernel_module_glowforge.Buffer.{backtrack_dead_stop}
use kernel_module_glowforge.Buffer.Fill.{FifoFits}
use kernel_module_glowforge.Cnc.State.{Cnc}
use kernel_module_glowforge.Engine.{Engine}
use kernel_module_glowforge.Engine.Bytes.{Memory, has_data}

-- A part of the ring is no way round it.
pub part_moves : (h x s : ℕ) → 0 < x → x < s → (h + x) % s ≢ h % s
part_moves h x s p l e =
    let r = mod-lt h (omega arith) in
    let a : (h % s + x) % s ≡ h % s = mod-add-mod h s x ∙ e in
    elim (around (h % s) x s r l) [
      | inl b ↦ nowhere _ _ p (sym (mod-eq_of_lt b) ∙ a)
      | inr b ↦
          nothing_left _ _ _ l r b
            (sym (mod-eq_of_lt (rest_lt _ _ _ l r)) ∙ sym (mod-eq-sub-mod b) ∙ a)
    ]
  where
    around : (h x s : ℕ) → h < s → x < s → (h + x < s) ⊎ (s ≤ h + x)
    around h x s a b = ground arith

    nowhere : (h x : ℕ) → 0 < x → h + x ≡ h → ⊥
    nowhere h x a b = omega arith

    rest_lt : (h x s : ℕ) → x < s → h < s → h + x - s < s
    rest_lt h x s a b = omega arith

    nothing_left : (h x s : ℕ) → x < s → h < s → s ≤ h + x → h + x - s ≡ h → ⊥
    nothing_left h x s a b c d = omega arith

size_le : (k s : ℕ) → k * s ≡ 2 ^ 32 → s ≤ 2 ^ 32
size_le zero s e = elim (nothing (zero-mul s) e) [ ]
  where
    nothing : zero * s ≡ 0 → zero * s ≡ 2 ^ 32 → ⊥
    nothing z e = omega arith
size_le (suc k) s e = omega (arith, suc-mul k s)

-- The dead stop seen from the play position: `w` bytes behind it.
behind_head : (k s head w : ℕ) → k * s ≡ 2 ^ 32 → w ≤ s → sub32 head w % s ≡ (head + (s - w)) % s
behind_head k s head w e l =
    mod-mod_of_dvd s (head + 2 ^ 32 - w) (subst (λ x. s ∣ x) e (dvd-mul_left s k))
    ∙ sym (add-mul-mod_self_right _ 1 s)
    ∙ ap (λ x. x % s) (same k s head w e l)
    ∙ add-mul-mod_self_right (head + (s - w)) k s
  where
    same :
        (k s head w : ℕ)
        → k * s ≡ 2 ^ 32
        → w ≤ s
        → head + 2 ^ 32 - w + 1 * s ≡ head + (s - w) + k * s
    same k s head w e l = omega (arith, size_le k s e)

-- The write index is the play position and what is not played.
from_head :
    (i o sp : ℕ)
    → i < 2 ^ 32
    → o < 2 ^ 32
    → sp ≤ 2 ^ 32
    → sub32 i o ≤ sp
    → sub32 i sp ≡ sub32 o (sp - sub32 i o)
from_head i o sp a b c d = ground arith

span_cases :
    (size total u : ℕ)
    → size ≤ 2 ^ 30
    → u < size
    → u < total
    → let w = span size total - u in
      (u < span size total)
      × (span size total ≤ size)
      × (u ≡ 0 → size ≤ total → w ≡ size)
      × (((0 < u) ⊎ (total < size)) → w < size)
unfolding span
span_cases size total u a b c = ground arith

module _ (m : Memory) (kf : Kfifo) (c : Cnc) (e : Engine) where
  is_there :
      (n : ℕ)
      → m.is_mapped ≡ true
      → e.direction ≡ 0xFFFFFFFF
      → e.tail % m.size ≡ n % m.size
      → (e.head % m.size ≡ n % m.size → has_data m e ≡ false)
        × (n % m.size ≢ e.head % m.size → has_data m e ≡ true)
  is_there n a b t = ground arith

  -- Over a mapped ring whose size divides 2 ^ 32 and is at most a gibibyte, where less than the ring
  -- and less than the total is unplayed, an engine set to run backward from the play position to the
  -- dead stop that the driver publishes finds a byte to play, except where the ring has wrapped and
  -- all of it is played: there the dead stop is one ring back, which the engine cannot tell from the
  -- play position, so that it finds no data.
  pub dead_stop_lem :
      (k : ℕ)
      → k * m.size ≡ 2 ^ 32
      → m.size ≡ kf.size c.ring.fifo
      → FifoFits kf c.ring.fifo
      → unplayed c.ring.fifo < m.size
      → unplayed c.ring.fifo < c.ring.total_bytes
      → m.is_mapped ≡ true
      → e.direction ≡ 0xFFFFFFFF
      → e.head ≡ c.ring.fifo.out_ix
      → e.tail ≡ backtrack_dead_stop kf c
      → (unplayed c.ring.fifo ≡ 0 → m.size ≤ c.ring.total_bytes → has_data m e ≡ false)
        × ((0 < unplayed c.ring.fifo) ⊎ (c.ring.total_bytes < m.size) → has_data m e ≡ true)
  unfolding backtrack_dead_stop
  dead_stop_lem k s same fits l played mapped back h t =
      let u = unplayed c.ring.fifo in
      let size = m.size in
      let sp = span size c.ring.total_bytes in
      let small : size ≤ 2 ^ 30 = rw same fits.size_max in
      let q = span_cases size c.ring.total_bytes u small l played in
      let w = sp - u in
      let index = c.ring.fifo.in_ix in
      let out = c.ring.fifo.out_ix in
      let dead : e.tail ≡ sub32 index sp = rw (t, same) refl in
      let moved : sub32 index sp ≡ sub32 out w =
        from_head index out sp fits.in_word fits.out_word (omega (arith, q.1))
          (omega (arith, q.0)) in
      let seen : sub32 out w ≡ sub32 e.head w = rw h refl in
      let at : e.tail ≡ sub32 e.head w = dead ∙ moved ∙ seen in
      let masked = ap (λ x. x % size) at ∙ behind_head k size e.head w s (omega (arith, q.1)) in
      let r = is_there (e.head + (size - w)) mapped back masked in
      (
        λ z y. r.0 (ap (λ x. x % size) (whole _ _ _ (q.2 z y))),
        λ v. r.1 (
            part_moves e.head (size - w) size (omega (arith, q.3 v))
              (some_part _ _ _ (q.0) (q.3 v))),
      )
    where
      whole : (h s w : ℕ) → w ≡ s → h ≡ h + (s - w)
      whole h s w e = omega arith

      some_part : (u sp s : ℕ) → u < sp → sp - u < s → s - (sp - u) < s
      some_part u sp s a b = omega arith
