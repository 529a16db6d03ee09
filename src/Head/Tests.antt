-- ===== src/Head/Tests.antt =====
-- A head that works, and the theorem of its safe state at it.
use kernel_module_glowforge.Base.{
  ℕ, ◌-◌, ◌+◌, ◌*◌, ◌<◌, ◌≡◌, ◌≢◌, Bool, true, false, not, ◌&&◌, ◌||◌, [], ◌∷◌, ◌==◌, ltb,
  if◌then◌else◌, refl, arith,
}
use kernel_module_glowforge.Head.{
  I2cWrite, byte_data, word_data, head_make_safe, head_reg_rw_grp, head_reg_msr_laser,
  head_reg_uv_led, Info, value_of, unread, info_show, not_shown,
}
use kernel_module_glowforge.Kernel.{eio}
use kernel_module_glowforge.Head.Chip.{HeadChip, has_bit, write_all}
use kernel_module_glowforge.Head.Registers.{head_make_safe_lem}
use kernel_module_glowforge.Head.Attributes.{HeadText}

pub record Registers : Type 0 where
  pub words : ℕ → ℕ
  pub bits : ℕ → ℕ → Bool

abbrev pub carry_out : I2cWrite → Registers → Registers
carry_out (word_data r v) s = record s { words = λ q. if q == r then v else s.words q }
carry_out (byte_data r mask) s =
    if ltb r 128
    then record s { bits = λ g b. if g == r - 64 then s.bits g b || has_bit mask b else s.bits g b }
    else record s {
      bits = λ g b. if g == r - 128 then s.bits g b && not (has_bit mask b) else s.bits g b;
    }

pub set_carried :
    (r mask g b : ℕ) (s : Registers)
    → r < 64
    → (carry_out (byte_data (r + 64) mask) s).bits g b
      ≡ (if g == r then s.bits g b || has_bit mask b else s.bits g b)
set_carried r mask g b s h = ground arith

pub clear_carried :
    (r mask g b : ℕ) (s : Registers)
    → r < 64
    → (carry_out (byte_data (r + 128) mask) s).bits g b
      ≡ (if g == r then s.bits g b && not (has_bit mask b) else s.bits g b)
clear_carried r mask g b s h = ground arith

pub words_kept :
    (r mask q : ℕ) (s : Registers)
    → r < 64
    → (carry_out (byte_data (r + 64) mask) s).words q ≡ s.words q
words_kept r mask q s h = ground arith

pub words_kept_clear :
    (r mask q : ℕ) (s : Registers)
    → r < 64
    → (carry_out (byte_data (r + 128) mask) s).words q ≡ s.words q
words_kept_clear r mask q s h = ground arith

abbrev pub working_head : HeadChip
working_head = record {
  State = Registers;
  word = λ s. s.words;
  bit = λ s. s.bits;
  write = carry_out;
  word_lem = λ r v q s. refl;
  word_keeps = λ r v g b s. refl;
  set_lem = set_carried;
  clear_lem = clear_carried;
  set_keeps = words_kept;
  clear_keeps = words_kept_clear;
}

-- Both emitters are on, and the lens motor is driven.
abbrev pub measuring : Registers
measuring = record { words = λ q. 500; bits = λ g b. false }

measuring_made_safe :
    let d = write_all working_head head_make_safe (true ∷ true ∷ false ∷ []) measuring in
    ((b : ℕ) → d.bits head_reg_rw_grp b ≡ (false || (true && has_bit 3 b)))
    × ((g b : ℕ) → g ≢ head_reg_rw_grp → d.bits g b ≡ false)
    × (d.words head_reg_msr_laser ≡ 0)
    × (d.words head_reg_uv_led ≡ 500)
    × ((q : ℕ) → q ≢ head_reg_msr_laser → q ≢ head_reg_uv_led → d.words q ≡ 500)
measuring_made_safe = head_make_safe_lem working_head true true false measuring

-- One register that cannot be read fails the whole of the information.
abbrev half_read : Info
half_read = record {
  id = value_of 0x044c;
  v1 = value_of 1;
  v2 = value_of 2;
  v3 = value_of 3;
  v4 = value_of 4;
  serial_lsb = value_of 5;
  serial_msb = unread eio;
  reg5 = value_of 6;
  reg6 = value_of 7;
}

half_read_fails : info_show half_read ≡ not_shown eio
unfolding info_show
half_read_fails = refl

-- What a group register reads: its eight bits.
abbrev digit : Bool → ℕ
digit b = if b then 1 else 0

abbrev byte_of : Registers → ℕ → ℕ
byte_of s g =
    digit (s.bits g 0)
    + 2 * digit (s.bits g 1)
    + 4 * digit (s.bits g 2)
    + 8 * digit (s.bits g 3)
    + 16 * digit (s.bits g 4)
    + 32 * digit (s.bits g 5)
    + 64 * digit (s.bits g 6)
    + 128 * digit (s.bits g 7)

-- The lens motor's driver is disabled; the text has a newline.
abbrev one_text : HeadText
one_text = record { chars = 49 ∷ 10 ∷ []; count = 2; parsed = true; number = 1 }
