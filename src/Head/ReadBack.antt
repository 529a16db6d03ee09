-- ===== src/Head/ReadBack.antt =====
-- What is written to an attribute of the head reads back, and no other attribute changes.
use kernel_module_glowforge.Base.{
  ℕ, ◌<◌, ◌≡◌, ◌⊎◌, Bool, false, List, [], ◌∷◌, ◌==◌, if◌then◌else◌, get_or, refl,
}
use kernel_module_glowforge.Kernel.{Ret, ok, is_ok}
use kernel_module_glowforge.Head.{I2cWrite}
use kernel_module_glowforge.Head.Chip.{HeadChip, has_bit, write_all}
use kernel_module_glowforge.Head.Attributes.{
  bit_of_attr, reg_of_attr, HeadAttr, bool_attr, word_attr, HeadText, head_show,
}

abbrev pub is_same : HeadAttr → HeadAttr → Bool
is_same (bool_attr a) (bool_attr o) = bit_of_attr a == bit_of_attr o
is_same (word_attr a) (word_attr o) = reg_of_attr a == reg_of_attr o
is_same _ _ = false

-- What a text that is taken asks for
abbrev pub asked : HeadAttr → HeadText → ℕ
asked (bool_attr a) t = if get_or t.chars 0 0 == 49 then 1 else 0
asked (word_attr a) t = t.number

module _ (chip : HeadChip) (byte : chip.State → ℕ → ℕ)
    (byte_bit : (s : chip.State) (g n : ℕ) → n < 8 → has_bit (byte s g) n ≡ chip.bit s g n) where
  one_write : (w : I2cWrite) (s : chip.State) → write_all chip (w ∷ []) [] s ≡ chip.write w s
  unfolding write_all
  one_write w s = refl

  abbrev Answered : HeadAttr → HeadText → chip.State → Ret × List I2cWrite → Type 0
  Answered a t s r =
      let d = write_all chip r.1 [] s in
      ((r.0 ≡ ok)
        × ((o : HeadAttr)
            → head_show chip byte o d
              ≡ (if is_same a o then asked a t else head_show chip byte o s)))
      ⊎ ((is_ok r.0 ≡ false) × (r.1 ≡ []))
