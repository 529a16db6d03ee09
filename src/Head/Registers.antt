-- ===== src/Head/Registers.antt =====
-- The safe state of the head, and its bits.
use kernel_module_glowforge.Base.{
  ℕ, ◌+◌, ◌≡◌, ◌≢◌, ◌<◌, Bool, true, false, ◌&&◌, ◌||◌, [], ◌∷◌, ◌==◌, if◌then◌else◌, arith, refl,
  ◌∙◌,
}
use kernel_module_glowforge.Head.{
  I2cWrite, head_make_safe, head_reg_bits_set, head_reg_rw_grp, head_reg_msr_laser, head_reg_uv_led,
  byte_data, word_data,
}
use kernel_module_glowforge.Head.Chip.{HeadChip, write_all, has_bit}

-- What a write changes, whether the bus carries it out or not.
module _ (chip : HeadChip) where
  abbrev after : Bool → I2cWrite → chip.State → chip.State
  after c w s = if c then chip.write w s else s

  bit-word_data :
      (c : Bool) (r v g b : ℕ) (s : chip.State)
      → chip.bit (after c (word_data r v) s) g b ≡ chip.bit s g b
  bit-word_data true r v g b s = chip.word_keeps r v g b s
  bit-word_data false r v g b s = refl

  word-word_data :
      (c : Bool) (r v q : ℕ) (s : chip.State)
      → chip.word (after c (word_data r v) s) q ≡ (if c && (q == r) then v else chip.word s q)
  word-word_data true r v q s = chip.word_lem r v q s
  word-word_data false r v q s = refl

  bit-set_data :
      (c : Bool) (r mask g b : ℕ) (s : chip.State)
      → r < 64
      → chip.bit (after c (byte_data (r + head_reg_bits_set) mask) s) g b
        ≡ (if g == r then chip.bit s g b || (c && has_bit mask b) else chip.bit s g b)
  bit-set_data true r mask g b s h = chip.set_lem r mask g b s h
  bit-set_data false r mask g b s h = ground arith

  word-set_data :
      (c : Bool) (r mask q : ℕ) (s : chip.State)
      → r < 64
      → chip.word (after c (byte_data (r + head_reg_bits_set) mask) s) q ≡ chip.word s q
  word-set_data true r mask q s h = chip.set_keeps r mask q s h
  word-set_data false r mask q s h = refl

  -- The three writes of the safe state.
  module _ (motor laser uv : Bool) (s : chip.State) where
    abbrev s1 : chip.State
    s1 = after motor (byte_data (head_reg_rw_grp + head_reg_bits_set) 3) s

    abbrev s2 : chip.State
    s2 = after laser (word_data head_reg_msr_laser 0) s1

    abbrev s3 : chip.State
    s3 = after uv (word_data head_reg_uv_led 0) s2

    safe-bit :
        (g b : ℕ)
        → chip.bit s3 g b ≡ (
            if g == head_reg_rw_grp
            then chip.bit s g b || (motor && has_bit 3 b)
            else chip.bit s g b)
    safe-bit g b =
        bit-word_data uv head_reg_uv_led 0 g b s2
        ∙ bit-word_data laser head_reg_msr_laser 0 g b s1
        ∙ bit-set_data motor head_reg_rw_grp 3 g b s (ground arith)

    safe-word :
        (q : ℕ)
        → chip.word s3 q ≡ (
            if uv && (q == head_reg_uv_led)
            then 0
            else if laser && (q == head_reg_msr_laser)
            then 0
            else chip.word s q)
    safe-word q =
        let a = word-word_data uv head_reg_uv_led 0 q s2 in
        let b = word-word_data laser head_reg_msr_laser 0 q s1 in
        let c = word-set_data motor head_reg_rw_grp 3 q s (ground arith) in ground arith

-- Making the head safe sets the bits that disable the lens motor's driver and lower its current,
-- turns the measuring laser and the UV LED off, and leaves every other bit and every other word
-- register as it was. Where the bus does not carry some of the three writes out, the others still
-- take effect.
pub head_make_safe_lem :
    (chip : HeadChip) (motor laser uv : Bool) (s : chip.State)
    → let d = write_all chip head_make_safe (motor ∷ laser ∷ uv ∷ []) s in
      ((b : ℕ)
        → chip.bit d head_reg_rw_grp b ≡ (chip.bit s head_reg_rw_grp b || (motor && has_bit 3 b)))
      × ((g b : ℕ) → g ≢ head_reg_rw_grp → chip.bit d g b ≡ chip.bit s g b)
      × (chip.word d head_reg_msr_laser ≡ (if laser then 0 else chip.word s head_reg_msr_laser))
      × (chip.word d head_reg_uv_led ≡ (if uv then 0 else chip.word s head_reg_uv_led))
      × ((q : ℕ) → q ≢ head_reg_msr_laser → q ≢ head_reg_uv_led → chip.word d q ≡ chip.word s q)
unfolding head_make_safe write_all
head_make_safe_lem chip motor laser uv s =
    let bit = safe-bit chip motor laser uv s in
    let word = safe-word chip motor laser uv s in
    (
      (λ b. bit head_reg_rw_grp b),
      (λ g b n. let e = bit g b in ground arith),
      (let e = word head_reg_msr_laser in ground arith),
      (let e = word head_reg_uv_led in ground arith),
      (λ q n m. let e = word q in ground arith),
    )
