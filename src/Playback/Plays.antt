-- ===== src/Playback/Plays.antt =====
-- What a byte of the engine does to the bytes that are still to play.
use kernel_module_glowforge.Base.{
  ℕ, zero, suc, ◌*◌, ◌-◌, ◌<◌, ◌%◌, ◌^◌, ◌≡◌, ◌≢◌, inl, inr, true, false, [], ◌∷◌, ◌++◌,
  if◌then◌else◌, refl, sym, ap, ◌∙◌, add32, sub32, Bool-cases, clash, arith,
}
use kernel_module_glowforge.Ring.{Kfifo}
use kernel_module_glowforge.Engine.{Engine, writes_duty}
use kernel_module_glowforge.Engine.Bytes.{
  Memory, consume, has_data, byte_under, end_byte, play_power, play_pulse, pulse_under, all_done,
}
use kernel_module_glowforge.Playback.{System}
use kernel_module_glowforge.Playback.Window.{window, apart}
use kernel_module_glowforge.Playback.Fed.{contents, IsFed}

abbrev pub IsDone : Engine → Engine → Type 0
IsDone e d = (d.direction ≡ e.direction) × (d.tail ≡ e.tail) × (d.head ≡ add32 e.head e.direction)

end_byte-IsDone : (e : Engine) → IsDone e (end_byte e)
unfolding end_byte
end_byte-IsDone e = ground arith

play_power-IsDone : (byte : ℕ) (e : Engine) → IsDone e (play_power byte e).1
unfolding play_power
play_power-IsDone byte e = ground (
  arith,
  end_byte-IsDone e,
  end_byte-IsDone (record e { after_power = true; outputs = writes_duty (byte % 128) ∷ e.outputs }),
)

pub data_byte : (m : Memory) (e : Engine) → has_data m e ≡ true → IsDone e (consume m e).1
unfolding consume play_pulse
data_byte m e h =
    let d = play_pulse (pulse_under m e) e in
    ground (arith, play_power-IsDone (byte_under m e) e, end_byte-IsDone d)

pub no_data :
    (m : Memory) (e : Engine)
    → has_data m e ≡ false
    → let d = (consume m e).1 in (d.direction ≡ 0) × (d.tail ≡ e.tail) × (d.head ≡ e.head)
unfolding consume all_done
no_data m e h = ground arith

-- What is published and not played yet, less than a ring of it, shows at the offsets.
at_offsets :
    (turns size h t : ℕ)
    → turns * size ≡ 2 ^ 32
    → h < 2 ^ 32
    → t < 2 ^ 32
    → sub32 t h < size
    → 0 < sub32 t h
    → h % size ≢ t % size
at_offsets turns size h t e a b l p same =
    apart turns size h 1 0 (sub32 t h - 1) e (omega arith) (omega arith)
      (ap (λ x. x % size) (there h t a b p) ∙ sym same ∙ ap (λ x. x % size) (here h a))
  where
    there :
        (h t : ℕ) → h < 2 ^ 32 → t < 2 ^ 32 → 0 < sub32 t h → add32 (add32 h 1) (sub32 t h - 1) ≡ t
    there h t a b p = ground arith

    here : (h : ℕ) → h < 2 ^ 32 → h ≡ add32 h 0
    here h a = omega arith

window_pop :
    (bytes : ℕ → ℕ) (size h u : ℕ)
    → 0 < u
    → window bytes size h u ≡ bytes (h % size) ∷ window bytes size (add32 h 1) (u - 1)
window_pop bytes size h zero p = elim (nothing p) [ ]
  where
    nothing : 0 < zero → ⊥
    nothing p = omega arith
window_pop bytes size h (suc n) p =
    ap (λ i. bytes (h % size) ∷ window bytes size (add32 h 1) i) (less n)
  where
    less : (n : ℕ) → n ≡ suc n - 1
    less n = omega arith

-- An index ahead of the head is one less ahead of the next.
pub next_ahead :
    (i h : ℕ) → i < 2 ^ 32 → h < 2 ^ 32 → 0 < sub32 i h → sub32 i (add32 h 1) ≡ sub32 i h - 1
next_ahead i h a b p = ground arith

pub equal_words : (i h : ℕ) → i < 2 ^ 32 → h < 2 ^ 32 → sub32 i h ≡ 0 → h ≡ i
equal_words i h a b p = ground arith

module _ (k : Kfifo) where
  -- The engine has data just when it plays and something is published.
  pub has_data_iff :
      (turns : ℕ) (s : System)
      → IsFed k turns s
      → (has_data s.memory s.engine ≡ true
          → (s.engine.direction ≡ 1) × (0 < sub32 s.engine.tail s.engine.head))
        × (s.engine.direction ≡ 1
            → 0 < sub32 s.engine.tail s.engine.head
            → has_data s.memory s.engine ≡ true)
  has_data_iff turns s v =
      let h = s.engine.head in
      let t = s.engine.tail in
      let size = s.memory.size in
      (
        λ y. elim v.direction [ inl z ↦ elim (clash _ (parked z) y) [ ] | inr f ↦ (f, ahead y) ],
        λ f p. there f (
            at_offsets turns size h t v.turns_lem v.head_word v.tail_word
              (omega (arith, v.published, v.filled)) p),
      )
    where
      parked : s.engine.direction ≡ 0 → has_data s.memory s.engine ≡ false
      parked z = ground arith

      there :
          s.engine.direction ≡ 1
          → s.engine.head % s.memory.size ≢ s.engine.tail % s.memory.size
          → has_data s.memory s.engine ≡ true
      there f n = let p = v.mapped in ground arith

      ahead : has_data s.memory s.engine ≡ true → 0 < sub32 s.engine.tail s.engine.head
      ahead y =
          let q = equal_words s.engine.tail s.engine.head v.tail_word v.head_word in ground arith

  abbrev pub after_byte : System → System
  after_byte s = record s { engine = (consume s.memory s.engine).1 }

  pub consume_contents :
      (turns : ℕ) (s : System)
      → IsFed k turns s
      → contents s
        ≡ (if has_data s.memory s.engine then byte_under s.memory s.engine ∷ [] else [])
          ++ contents (after_byte s)
  consume_contents turns s v =
      let m = s.memory in
      let i = s.cnc.ring.fifo.in_ix in
      let h = s.engine.head in
      elim (Bool-cases (has_data m s.engine)) [
        | inl y ↦
            let d = data_byte m s.engine y in
            let q = (has_data_iff turns s v).0 y in
            let p : 0 < sub32 i h = omega (arith, v.published, q.1) in
            rw (y, d.2, q.0, next_ahead i h v.in_word v.head_word p)
              (window_pop m.byte_at m.size h (sub32 i h) p)
        | inr n ↦ rw (n, (no_data m s.engine n).2) refl
      ]

  pub consume-IsFed : (turns : ℕ) (s : System) → IsFed k turns s → IsFed k turns (after_byte s)
  consume-IsFed turns s v =
      let m = s.memory in
      let i = s.cnc.ring.fifo.in_ix in
      let h = s.engine.head in
      let t = s.engine.tail in
      elim (Bool-cases (has_data m s.engine)) [
        | inl y ↦
            let d = data_byte m s.engine y in
            let q = (has_data_iff turns s v).0 y in
            let p : 0 < sub32 i h = omega (arith, v.published, q.1) in
            let at = d.2 ∙ ap (λ x. add32 h x) q.0 in
            let less = next_ahead i h v.in_word v.head_word p in
            let less_out = next_ahead t h v.tail_word v.head_word q.1 in
            record {
              turns_lem = v.turns_lem;
              size_lem = v.size_lem;
              size_max = v.size_max;
              mapped = v.mapped;
              in_word = v.in_word;
              head_word = rw at (omega arith);
              tail_word = rw d.1 v.tail_word;
              direction = rw d.0 v.direction;
              published = rw (at, d.1, less, less_out) (omega (arith, v.published));
              filled = rw (at, less) (omega (arith, v.filled));
            }
        | inr n ↦
            let d = no_data m s.engine n in
            record {
              turns_lem = v.turns_lem;
              size_lem = v.size_lem;
              size_max = v.size_max;
              mapped = v.mapped;
              in_word = v.in_word;
              head_word = rw d.2 v.head_word;
              tail_word = rw d.1 v.tail_word;
              direction = inl d.0;
              published = rw (d.2, d.1) v.published;
              filled = rw d.2 v.filled;
            }
      ]
