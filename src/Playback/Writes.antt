-- ===== src/Playback/Writes.antt =====
-- What a write does to the bytes that are still to play.
use kernel_module_glowforge.Base.{
  ℕ, ◌+◌, ◌<◌, ◌≤◌, ◌%◌, ◌^◌, ◌≡◌, ◌≢◌, ◌⊎◌, inl, inr, true, false, [], ◌++◌, if◌then◌else◌, refl,
  sym, ap, ◌∙◌, add32, sub32, length, take, Bool-cases, clash, arith,
}
use mathlib.Core.Path.{subst}
use mathlib.Core.List.{append-nil}
use kernel_module_glowforge.Ring.{Kfifo}
use kernel_module_glowforge.Buffer.{gap_size}
use kernel_module_glowforge.Playback.{Copier, System, Write, reaches_copy, is_taken, write, writes}
use kernel_module_glowforge.Playback.Window.{window, window-append, window_kept, window_of, apart}
use kernel_module_glowforge.Playback.Fed.{
  contents, IsFed, IsAllowed, take_of, grown_index, length-take, has_room, write_indices, same_size,
}

module _ (k : Kfifo) (cp : Copier) where
  -- The bytes in memory after a write.
  abbrev copied_in : Write → System → ℕ → ℕ
  copied_in w s =
      cp.copy_in s.memory.byte_at s.memory.size s.cnc.ring.fifo.in_ix (take w.copied w.bytes)

  memory-write :
      (w : Write) (s : System)
      → ((write k cp w s).memory.size ≡ s.memory.size)
        × ((write k cp w s).memory.is_mapped ≡ s.memory.is_mapped)
        × (reaches_copy k cp w s ≡ true → (write k cp w s).memory.byte_at ≡ copied_in w s)
        × (reaches_copy k cp w s ≡ false → (write k cp w s).memory.byte_at ≡ s.memory.byte_at)
  unfolding write
  memory-write w s = elim (Bool-cases (reaches_copy k cp w s)) [
    | inl r ↦ rw r (refl, refl, λ x. refl, λ x. elim (clash true x refl) [ ])
    | inr r ↦ rw r (refl, refl, λ x. elim (clash false refl x) [ ], λ x. refl)
  ]

  head-write : (w : Write) (s : System) → (write k cp w s).engine.head ≡ s.engine.head
  unfolding write
  head-write w s = ground arith

  taken_copied :
      (w : Write) (s : System)
      → is_taken k cp w s ≡ true
      → (reaches_copy k cp w s ≡ true) × (w.copied ≡ length w.bytes)
  taken_copied w s t = ground arith

  index_lem : (i h : ℕ) → i < 2 ^ 32 → h < 2 ^ 32 → add32 h (sub32 i h) ≡ i
  index_lem i h a b = ground arith

  -- The bytes still to play are none of those that a write copies over.
  old_window :
      (turns : ℕ) (w : Write) (s : System)
      → IsFed k turns s
      → IsAllowed (writes w)
      → let t = write k cp w s in
        let u = sub32 s.cnc.ring.fifo.in_ix s.engine.head in
        window s.memory.byte_at s.memory.size s.engine.head u
        ≡ window t.memory.byte_at s.memory.size s.engine.head u
  old_window turns w s v f =
      let m = memory-write w s in
      let bytes = s.memory.byte_at in
      let size = s.memory.size in
      let i = s.cnc.ring.fifo.in_ix in
      let h = s.engine.head in
      let u = sub32 i h in
      let new = take w.copied w.bytes in
      elim (Bool-cases (reaches_copy k cp w s)) [
        | inl r ↦
            let room = has_room k cp turns w s v f.1 r in
            rw (m.2 r) (
              window_kept bytes size (copied_in w s) h u v.head_word (λ j b. sym (
                cp.kept_lem bytes size i new (add32 h j % size) (λ n q.
                  subst (λ x. add32 x n % size ≢ add32 h j % size)
                    (index_lem i h v.in_word v.head_word)
                    (apart turns size h u j n v.turns_lem b
                      (omega (arith, length-take w.copied w.bytes, f.0)))))))
        | inr r ↦ rw (m.3 r) refl
      ]

  new_window :
      (turns : ℕ) (w : Write) (s : System)
      → IsFed k turns s
      → IsAllowed (writes w)
      → is_taken k cp w s ≡ true
      → let t = write k cp w s in
        window t.memory.byte_at s.memory.size s.cnc.ring.fifo.in_ix (length w.bytes) ≡ w.bytes
  new_window turns w s v f t =
      let m = memory-write w s in
      let c = taken_copied w s t in
      let room = has_room k cp turns w s v f.1 c.0 in
      let i = s.cnc.ring.fifo.in_ix in
      let old = s.memory.byte_at in
      let size = s.memory.size in
      let all = ap (λ new. cp.copy_in old size i new) (take_of w.copied w.bytes c.1) in
      rw (m.2 c.0) (
        rw all (
          window_of (cp.copy_in old size i w.bytes) size i w.bytes v.in_word
            (λ j b. cp.copied_lem turns old size i w.bytes j v.turns_lem b (omega arith))))

  contents-write :
      (w : Write) (s : System)
      → let t = write k cp w s in
        contents t
        ≡ window t.memory.byte_at s.memory.size s.engine.head
            (sub32 t.cnc.ring.fifo.in_ix s.engine.head)
  contents-write w s = rw (head-write w s, (memory-write w s).0) refl

  -- How much is still to play after a write.
  index-write :
      (turns : ℕ) (w : Write) (s : System)
      → IsFed k turns s
      → IsAllowed (writes w)
      → let i = (write k cp w s).cnc.ring.fifo.in_ix in
        let h = s.engine.head in
        let u = sub32 s.cnc.ring.fifo.in_ix h in
        (i < 2 ^ 32)
        × (u ≤ sub32 i h)
        × (sub32 i h + gap_size ≤ s.memory.size)
        × (is_taken k cp w s ≡ true → sub32 i h ≡ u + length w.bytes)
  index-write turns w s v f =
      let ix = write_indices k cp w s v.in_word f.0 (omega (arith, f.1)) in
      elim (Bool-cases (is_taken k cp w s)) [
        | inl y ↦
            let room = has_room k cp turns w s v f.1 (taken_copied w s y).0 in
            let g =
              grown_index s.cnc.ring.fifo.in_ix s.engine.head (length w.bytes) s.memory.size
                v.in_word v.head_word room v.size_max in
            rw (ix.1 y) (g.0, g.1, g.2, λ x. g.3)
        | inr n ↦ rw (ix.2 n) (v.in_word, omega arith, v.filled, λ y. elim (clash _ n y) [ ])
      ]

  -- The feeder's bytes and those of a write, before and after it.
  pub write_contents :
      (turns : ℕ) (w : Write) (s : System)
      → IsFed k turns s
      → IsAllowed (writes w)
      → contents s ++ (if is_taken k cp w s then w.bytes else []) ≡ contents (write k cp w s)
  write_contents turns w s v f =
      let t = write k cp w s in
      let h = s.engine.head in
      let m = memory-write w s in
      let ix = write_indices k cp w s v.in_word f.0 (omega (arith, f.1)) in
      let kept = old_window turns w s v f in
      elim (Bool-cases (is_taken k cp w s)) [
        | inl y ↦
            let u = sub32 s.cnc.ring.fifo.in_ix h in
            let grown = (index-write turns w s v f).3 y in
            let b = t.memory.byte_at in
            let size = s.memory.size in
            let index = index_lem s.cnc.ring.fifo.in_ix h v.in_word v.head_word in
            ap (λ x. contents s ++ (if x then w.bytes else [])) y
            ∙ ap (λ l. l ++ w.bytes) kept
            ∙ ap (λ l. window b size h u ++ l) (sym (new_window turns w s v f y))
            ∙ ap (λ i. window b size h u ++ window b size i (length w.bytes)) (sym index)
            ∙ sym (window-append b size h u (length w.bytes) v.head_word)
            ∙ ap (λ n. window b size h n) (sym grown)
            ∙ sym (contents-write w s)
        | inr n ↦
            ap (λ x. contents s ++ (if x then w.bytes else [])) n
            ∙ append-nil _
            ∙ kept
            ∙ ap (λ i. window t.memory.byte_at s.memory.size h (sub32 i h)) (sym (ix.2 n))
            ∙ sym (contents-write w s)
      ]

  tail-write :
      (w : Write) (s : System)
      → let t = write k cp w s in
        (t.engine.direction ≡ s.engine.direction)
        × ((t.engine.tail ≡ s.engine.tail)
            ⊎ ((is_taken k cp w s ≡ true) × (t.engine.tail ≡ t.cnc.ring.fifo.in_ix)))
  unfolding write
  tail-write w s = ground arith

  pub write-IsFed :
      (turns : ℕ) (w : Write) (s : System)
      → IsFed k turns s
      → IsAllowed (writes w)
      → IsFed k turns (write k cp w s)
  write-IsFed turns w s v f =
      let t = write k cp w s in
      let m = memory-write w s in
      let ix = write_indices k cp w s v.in_word f.0 (omega (arith, f.1)) in
      let e = tail-write w s in
      let room = has_room k cp turns w s v f.1 in
      let grown = index-write turns w s v f in
      record {
        turns_lem = rw m.0 v.turns_lem;
        size_lem = m.0 ∙ v.size_lem ∙ same_size k cp _ _ (sym ix.0);
        size_max = rw m.0 v.size_max;
        mapped = m.1 ∙ v.mapped;
        in_word = grown.0;
        head_word = rw (head-write w s) v.head_word;
        tail_word = ground (arith, e.1, grown.0, v.tail_word);
        direction = rw e.0 v.direction;
        published = rw (head-write w s) (ground (arith, e.1, grown.1, v.published));
        filled = rw (head-write w s, m.0) grown.2;
      }
