-- ===== src/Head/Chip.antt =====
-- What the driver relies on of the head: word registers, and group registers whose bits are set and
-- cleared by masks (src/head_private.h).
use kernel_module_glowforge.Base.{
  ℕ, ◌+◌, ◌/◌, ◌%◌, ◌^◌, ◌<◌, ◌≡◌, Bool, not, ◌&&◌, ◌||◌, List, [], ◌∷◌, ◌==◌, if◌then◌else◌,
}
use kernel_module_glowforge.Head.{
  I2cWrite, byte_data, word_data, head_reg_bits_set, head_reg_bits_clear,
}

-- Bit `b` of a mask.
abbrev pub has_bit : ℕ → ℕ → Bool
has_bit mask b = mask / 2 ^ b % 2 == 1

pub record HeadChip : Type 1 where
  pub State : Type 0
  pub word : State → ℕ → ℕ
  pub bit : State → ℕ → ℕ → Bool
  pub write : I2cWrite → State → State
  pub word_lem :
      (r v q : ℕ) (s : State) → word (write (word_data r v) s) q ≡ (if q == r then v else word s q)
  pub word_keeps : (r v g b : ℕ) (s : State) → bit (write (word_data r v) s) g b ≡ bit s g b
  pub set_lem :
      (r mask g b : ℕ) (s : State)
      → r < 64
      → bit (write (byte_data (r + head_reg_bits_set) mask) s) g b
        ≡ (if g == r then bit s g b || has_bit mask b else bit s g b)
  pub clear_lem :
      (r mask g b : ℕ) (s : State)
      → r < 64
      → bit (write (byte_data (r + head_reg_bits_clear) mask) s) g b
        ≡ (if g == r then bit s g b && not (has_bit mask b) else bit s g b)
  pub set_keeps :
      (r mask q : ℕ) (s : State)
      → r < 64
      → word (write (byte_data (r + head_reg_bits_set) mask) s) q ≡ word s q
  pub clear_keeps :
      (r mask q : ℕ) (s : State)
      → r < 64
      → word (write (byte_data (r + head_reg_bits_clear) mask) s) q ≡ word s q

module _ (chip : HeadChip) where
  -- The writes that the bus carries out, in order; `carried` says which it does.
  unfoldable pub write_all : List I2cWrite → List Bool → chip.State → chip.State
  write_all [] carried s = s
  write_all (w ∷ ws) [] s = write_all ws [] (chip.write w s)
  write_all (w ∷ ws) (c ∷ cs) s = write_all ws cs (if c then chip.write w s else s)
