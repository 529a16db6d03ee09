-- ===== src/Playback/Fed.antt =====
-- The bytes of the feeder that are still to play, and a feeder and an engine that agree on them.
use kernel_module_glowforge.Base.{
  take_all, ℕ, zero, suc, ◌+◌, ◌*◌, ◌<◌, ◌≤◌, ◌^◌, ◌≡◌, ◌⊎◌, true, false, List, [], ◌∷◌, refl, sym,
  ap, ◌∙◌, add32, sub32, length, take, arith,
}
use kernel_module_glowforge.Ring.{Fifo, Kfifo}
use kernel_module_glowforge.Buffer.{gap_size}
use kernel_module_glowforge.Playback.{
  Copier, System, Write, reaches_copy, is_taken, write, Step, writes, starts, consumes_byte,
}
use kernel_module_glowforge.Playback.Window.{window}

-- The bytes of the feeder that are still to play.
abbrev pub contents : System → List ℕ
contents s =
    window s.memory.byte_at s.memory.size s.engine.head (sub32 s.cnc.ring.fifo.in_ix s.engine.head)

-- A ring whose size divides 2 ^ 32, in memory; words; an engine that is parked or plays forward, up
-- to an index that the feeder's writes have reached; and the gap kept free.
pub record IsFed (k : Kfifo) (turns : ℕ) (s : System) : Type 0 where
  pub turns_lem : turns * s.memory.size ≡ 2 ^ 32
  pub size_lem : s.memory.size ≡ k.size s.cnc.ring.fifo
  pub size_max : s.memory.size ≤ 2 ^ 30
  pub mapped : s.memory.is_mapped ≡ true
  pub in_word : s.cnc.ring.fifo.in_ix < 2 ^ 32
  pub head_word : s.engine.head < 2 ^ 32
  pub tail_word : s.engine.tail < 2 ^ 32
  pub direction : (s.engine.direction ≡ 0) ⊎ (s.engine.direction ≡ 1)
  pub published : sub32 s.engine.tail s.engine.head ≤ sub32 s.cnc.ring.fifo.in_ix s.engine.head
  pub filled : sub32 s.cnc.ring.fifo.in_ix s.engine.head + gap_size ≤ s.memory.size

pub length-take : (n : ℕ) (xs : List ℕ) → length (take n xs) ≤ n
length-take zero xs = omega arith
length-take (suc n) [] = omega arith
length-take (suc n) (x ∷ xs) = let h = length-take n xs in omega arith

pub take_of : (n : ℕ) (xs : List ℕ) → n ≡ length xs → take n xs ≡ xs
take_of n xs e = ap (λ i. take i xs) e ∙ take_all xs

-- A write of fewer bytes than an index and the gap have room for, of which no more are copied; a start
-- that plays forward.
abbrev pub IsAllowed : Step → Type 0
IsAllowed (writes w) = (w.copied ≤ length w.bytes) × (length w.bytes + gap_size < 2 ^ 32)
IsAllowed (starts env opts) = opts.backward ≡ false
IsAllowed consumes_byte = Unit

pub grown_index :
    (i h n size : ℕ)
    → i < 2 ^ 32
    → h < 2 ^ 32
    → sub32 i h + n + gap_size ≤ size
    → size ≤ 2 ^ 30
    → let j = add32 i n in
      (j < 2 ^ 32)
      × (sub32 i h ≤ sub32 j h)
      × (sub32 j h + gap_size ≤ size)
      × (sub32 j h ≡ sub32 i h + n)
grown_index i h n size a b c d = ground arith

module _ (k : Kfifo) (cp : Copier) where
  pub same_size : (f g : Fifo) → f.mask ≡ g.mask → k.size f ≡ k.size g
  same_size f g e = k.size_lem f ∙ ap (λ n. n + 1) e ∙ sym (k.size_lem g)

  abbrev seen : System → Fifo
  seen s = let f = s.cnc.ring.fifo in record f { out_ix = s.engine.head }

  -- A write that gets to the copy has room.
  pub has_room :
      (turns : ℕ) (w : Write) (s : System)
      → IsFed k turns s
      → length w.bytes + gap_size < 2 ^ 32
      → reaches_copy k cp w s ≡ true
      → sub32 s.cnc.ring.fifo.in_ix s.engine.head + length w.bytes + gap_size ≤ s.memory.size
  has_room turns w s v l r = ground (
    arith,
    v.size_lem,
    v.size_max,
    v.filled,
    k.avail_lem (seen s),
    same_size (seen s) s.cnc.ring.fifo refl,
  )

  -- The indices after a write.
  pub write_indices :
      (w : Write) (s : System)
      → s.cnc.ring.fifo.in_ix < 2 ^ 32
      → w.copied ≤ length w.bytes
      → length w.bytes < 2 ^ 32
      → let f = (write k cp w s).cnc.ring.fifo in
        (f.mask ≡ s.cnc.ring.fifo.mask)
        × (is_taken k cp w s ≡ true → f.in_ix ≡ add32 s.cnc.ring.fifo.in_ix (length w.bytes))
        × (is_taken k cp w s ≡ false → f.in_ix ≡ s.cnc.ring.fifo.in_ix)
  unfolding write
  write_indices w s b c l =
      let f = seen s in let g = s.cnc.ring.fifo in ground (arith, k.advance_lem f w.copied)
