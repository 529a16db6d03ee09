-- ===== src/Pic/Chip.antt =====
-- What the driver relies on of the chip: a register file that answers a read command with the
-- register's value, and stores the value of a write to an output register.
use kernel_module_glowforge.Base.{
  ℕ, zero, suc, ◌+◌, ◌≤◌, ◌<◌, ◌≡◌, List, [], ◌∷◌, ◌++◌, length, ◌==◌, if◌then◌else◌, arith, refl,
  ap, ◌∙◌,
}
use kernel_module_glowforge.Pic.{
  PicTransaction, register_read_command, register_write_command, pic_num_registers,
  pic_first_output_register, pic_last_output_register, write_words, read_words,
}

pub record Chip : Type 1 where
  pub State : Type 0
  pub reg : State → ℕ → ℕ
  pub exchange : PicTransaction → State → ℕ × State
  pub read_lem :
      (r v : ℕ) (s : State)
      → r < pic_num_registers
      → exchange (record { cmd = register_read_command r; value = v }) s ≡ (reg s r, s)
  pub write_lem :
      (r v q : ℕ) (s : State)
      → pic_first_output_register ≤ r
      → r ≤ pic_last_output_register
      → reg (exchange (record { cmd = register_write_command r; value = v }) s).1 q
        ≡ (if q == r then v else reg s q)

-- The values of the registers from one on.
abbrev pub values_from : (ℕ → ℕ) → ℕ → ℕ → List ℕ
values_from f r zero = []
values_from f r (suc n) = f r ∷ values_from f (suc r) n

-- A register file after values were written to the registers from one on.
abbrev pub overwritten : ℕ → List ℕ → (ℕ → ℕ) → ℕ → ℕ
overwritten r [] f q = f q
overwritten r (v ∷ vs) f q = overwritten (suc r) vs (λ p. if p == r then v else f p) q

overwritten_ext :
    (r q : ℕ) (vs : List ℕ) (f g : ℕ → ℕ)
    → ((p : ℕ) → f p ≡ g p)
    → overwritten r vs f q ≡ overwritten r vs g q
overwritten_ext r q [] f g h = h q
overwritten_ext r q (v ∷ vs) f g h =
    overwritten_ext (suc r) q vs _ _ (λ p. let e = h p in ground arith)

-- Outside the registers written nothing changes, and reading the written registers gives the
-- written values.
pub overwritten_below : (r q : ℕ) (vs : List ℕ) (f : ℕ → ℕ) → q < r → overwritten r vs f q ≡ f q
overwritten_below r q [] f h = refl
overwritten_below r q (v ∷ vs) f h =
    let i = overwritten_below (suc r) q vs (λ p. if p == r then v else f p) (ground arith) in
    ground arith

pub overwritten_above :
    (r q : ℕ) (vs : List ℕ) (f : ℕ → ℕ) → r + length vs ≤ q → overwritten r vs f q ≡ f q
overwritten_above r q [] f h = refl
overwritten_above r q (v ∷ vs) f h =
    let i = overwritten_above (suc r) q vs (λ p. if p == r then v else f p) (ground arith) in
    ground arith

pub values_from-overwritten :
    (r : ℕ) (vs : List ℕ) (f : ℕ → ℕ) → values_from (overwritten r vs f) r (length vs) ≡ vs
values_from-overwritten r [] f = refl
values_from-overwritten r (v ∷ vs) f =
    let i = overwritten_below (suc r) r vs (λ p. if p == r then v else f p) (ground arith) in
    let t = values_from-overwritten (suc r) vs (λ p. if p == r then v else f p) in ground arith

pub values_from_ext :
    (f g : ℕ → ℕ) (r n : ℕ) → ((p : ℕ) → f p ≡ g p) → values_from f r n ≡ values_from g r n
values_from_ext f g r zero h = refl
values_from_ext f g r (suc n) h =
    let e = h r in let i = values_from_ext f g (suc r) n h in rw (e, i)

module _ (chip : Chip) where
  -- The words of a transfer, one after another: what is received, and the chip afterwards.
  unfoldable pub exchange_all : List PicTransaction → chip.State → List ℕ × chip.State
  exchange_all [] s = ([], s)
  exchange_all (t ∷ ts) s =
      let r = chip.exchange t s in let rest = exchange_all ts r.1 in (r.0 ∷ rest.0, rest.1)

  pub exchange_all-append :
      (ts us : List PicTransaction) (s : chip.State)
      → exchange_all (ts ++ us) s ≡ (
        (exchange_all ts s).0 ++ (exchange_all us (exchange_all ts s).1).0,
        (exchange_all us (exchange_all ts s).1).1,
      )
  unfolding exchange_all
  exchange_all-append [] us s = refl
  exchange_all-append (t ∷ ts) us s = let h = exchange_all-append ts us (chip.exchange t s).1 in cc

  pub exchange_all-read_words :
      (stale r n : ℕ) (s : chip.State)
      → r + n ≤ pic_num_registers
      → exchange_all (read_words stale r n) s ≡ (values_from (chip.reg s) r n, s)
  unfolding exchange_all
  exchange_all-read_words stale r zero s h = refl
  exchange_all-read_words stale r (suc n) s h =
      let e = chip.read_lem r stale s (ground arith) in
      let i = exchange_all-read_words stale (suc r) n s (ground arith) in rw (e, i)

  pub exchange_all-write_words :
      (r q : ℕ) (vs : List ℕ) (s : chip.State)
      → pic_first_output_register ≤ r
      → r + length vs ≤ suc pic_last_output_register
      → chip.reg (exchange_all (write_words r vs) s).1 q ≡ overwritten r vs (chip.reg s) q
  unfolding exchange_all
  exchange_all-write_words r q [] s low high = refl
  exchange_all-write_words r q (v ∷ vs) s low high =
      exchange_all-write_words (suc r) q vs _ (ground arith) (ground arith)
      ∙ overwritten_ext (suc r) q vs _ _ (λ p. chip.write_lem r v p s low (ground arith))

  pub length-received :
      (r : ℕ) (vs : List ℕ) (s : chip.State)
      → length (exchange_all (write_words r vs) s).0 ≡ length vs
  unfolding exchange_all
  length-received r [] s = refl
  length-received r (v ∷ vs) s = ap suc (length-received (suc r) vs _)
