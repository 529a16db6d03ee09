-- ===== src/Pic/Registers.antt =====
-- Writing and reading back a range of registers, on a chip that works.
use kernel_module_glowforge.Base.{
  take_all, ℕ, zero, suc, ◌+◌, ◌-◌, ◌*◌, ◌≤◌, ◌<◌, ◌≡◌, ◌⊎◌, true, List, [], ◌∷◌, ◌++◌, length,
  take, drop, inl, inr, arith, refl, sym, ap, ◌∙◌,
}
use kernel_module_glowforge.Buffer.{count_of}
use kernel_module_glowforge.Pic.{
  PicTransaction, Reply, Transfer, verified, write_words, read_words, pic_write_register_range,
  pic_read_register_range, pic_make_safe, pic_first_output_register, pic_last_output_register,
  pic_num_registers,
}
use kernel_module_glowforge.Pic.Chip.{
  Chip, exchange_all, exchange_all-append, exchange_all-read_words, exchange_all-write_words,
  length-received, overwritten, overwritten_below, overwritten_above, values_from, values_from_ext,
  values_from-overwritten,
}

drop-length : (xs ys : List ℕ) → drop (length xs) (xs ++ ys) ≡ ys
drop-length [] ys = refl
drop-length (x ∷ xs) ys = drop-length xs ys

verified_self : (xs : List ℕ) → verified xs xs ≡ true
verified_self [] = refl
verified_self (x ∷ xs) = let h = verified_self xs in ground arith

-- The reply is what the chip answers to the words sent, without an error of the bus.
pub record IsReply (chip : Chip) (s : chip.State) (t : Transfer) (reply : Reply) : Type 0 where
  pub no_error : reply.status ≡ 0
  pub received : reply.rxbuf ≡ (exchange_all chip t.txbuf s).0

-- What a write of `vs` sends, and what a working chip makes of it.
module _ (chip : Chip) (stale r : ℕ) (vs : List ℕ) (s : chip.State)
    (low : pic_first_output_register ≤ r)
    (high : r + length vs ≤ suc pic_last_output_register) where
  abbrev words : List PicTransaction
  words = write_words r vs ++ read_words stale r (length vs)

  abbrev wrote : List ℕ × chip.State
  wrote = exchange_all chip (write_words r vs) s

  exchanged :
      exchange_all chip words s ≡ (wrote.0 ++ values_from (chip.reg wrote.1) r (length vs), wrote.1)
  exchanged =
      let e = exchange_all-append chip (write_words r vs) (read_words stale r (length vs)) s in
      let i = exchange_all-read_words chip stale r (length vs) wrote.1 (ground arith) in
      e ∙ ap (λ p. (wrote.0 ++ p.0, p.1)) i

  pub written-reg :
      (q : ℕ) → chip.reg (exchange_all chip words s).1 q ≡ overwritten r vs (chip.reg s) q
  written-reg q =
      ap (λ p. chip.reg p.1 q) exchanged ∙ exchange_all-write_words chip r q vs s low high

  values_written : values_from (chip.reg wrote.1) r (length vs) ≡ vs
  values_written =
      values_from_ext (chip.reg wrote.1) (overwritten r vs (chip.reg s)) r (length vs)
        (λ q. exchange_all-write_words chip r q vs s low high)
      ∙ values_from-overwritten r vs (chip.reg s)

  read_back : drop (length vs) (exchange_all chip words s).0 ≡ vs
  read_back =
      let n = length-received chip r vs s in
      let d = drop-length wrote.0 (values_from (chip.reg wrote.1) r (length vs)) in
      ap (λ p. drop (length vs) p.0) exchanged
      ∙ ap (λ m. drop m (wrote.0 ++ values_from (chip.reg wrote.1) r (length vs))) (sym n)
      ∙ d
      ∙ values_written

-- The words that a write sends, and what it returns, where the values fill the range.
module _ (stale first_reg last_reg : ℕ) (values : List ℕ) (reply : Reply)
    (fits : first_reg + length values ≡ suc last_reg) (some_values : 0 < length values) where
  num_regs : last_reg - first_reg + 1 ≡ length values
  num_regs = ground arith

  pub write-txbuf :
      (pic_write_register_range stale reply first_reg last_reg values (length values * 2)).txbuf
      ≡ write_words first_reg values ++ read_words stale first_reg (length values)
  unfolding pic_write_register_range
  write-txbuf = rw (num_regs, take_all values) (ground arith)

  write-ret :
      reply.status ≡ 0
      → drop (length values) reply.rxbuf ≡ values
      → (pic_write_register_range stale reply first_reg last_reg values (length values * 2)).ret
        ≡ count_of (length values * 2)
  unfolding pic_write_register_range
  write-ret e d =
      let v = verified_self values in rw (num_regs, take_all values, d, e, v) (ground arith)

overwritten_outside :
    (first_reg last_reg q : ℕ) (values : List ℕ) (f : ℕ → ℕ)
    → first_reg + length values ≡ suc last_reg
    → (q < first_reg) ⊎ (last_reg < q)
    → overwritten first_reg values f q ≡ f q
overwritten_outside first_reg last_reg q values f fits (inl h) =
    overwritten_below first_reg q values f h
overwritten_outside first_reg last_reg q values f fits (inr h) =
    overwritten_above first_reg q values f (ground arith)

-- On a chip that works and a bus without errors, a write of as many values as the range of output
-- registers holds returns its byte count, and leaves the values in the registers of the range, in
-- order, and every other register as it was.
pub write_range_lem :
    (chip : Chip) (stale first_reg last_reg : ℕ) (values : List ℕ) (s : chip.State) (reply : Reply)
    → pic_first_output_register ≤ first_reg
    → last_reg ≤ pic_last_output_register
    → first_reg + length values ≡ suc last_reg
    → 0 < length values
    → IsReply chip s
        (pic_write_register_range stale reply first_reg last_reg values (length values * 2))
        reply
    → let t = pic_write_register_range stale reply first_reg last_reg values (length values * 2) in
      let d = (exchange_all chip t.txbuf s).1 in
      (t.ret ≡ count_of (length values * 2))
      × (values_from (chip.reg d) first_reg (length values) ≡ values)
      × ((q : ℕ) → (q < first_reg) ⊎ (last_reg < q) → chip.reg d q ≡ chip.reg s q)
write_range_lem chip stale first_reg last_reg values s reply low high fits some_values h =
    let high2 : first_reg + length values ≤ suc pic_last_output_register = ground arith in
    let e = write-txbuf stale first_reg last_reg values reply fits some_values in
    let t = pic_write_register_range stale reply first_reg last_reg values (length values * 2) in
    let d : drop (length values) reply.rxbuf ≡ values =
      ap (drop (length values)) (h.received ∙ ap (λ tx. (exchange_all chip tx s).0) e)
      ∙ read_back chip stale first_reg values s low high2 in
    let w : (q : ℕ)
        → chip.reg (exchange_all chip t.txbuf s).1 q ≡ overwritten first_reg values (chip.reg s) q =
      λ q.
        ap (λ tx. chip.reg (exchange_all chip tx s).1 q) e
        ∙ written-reg chip stale first_reg values s low high2 q in
    (
      write-ret stale first_reg last_reg values reply fits some_values h.no_error d,
      values_from_ext _ _ first_reg (length values) w
          ∙ values_from-overwritten first_reg values (chip.reg s),
      (λ q o. w q ∙ overwritten_outside first_reg last_reg q values (chip.reg s) fits o),
    )

read_sent :
    (stale first_reg last_reg : ℕ) (reply : Reply)
    → first_reg ≤ last_reg
    → reply.status ≡ 0
    → let n = last_reg - first_reg + 1 in
      pic_read_register_range stale reply first_reg last_reg ≡ (
        record { txbuf = read_words stale first_reg n; ret = count_of (n * 2) },
        take n reply.rxbuf,
      )
unfolding pic_read_register_range
read_sent stale first_reg last_reg reply ordered e = ground arith

take_values : (f : ℕ → ℕ) (r n : ℕ) → take n (values_from f r n) ≡ values_from f r n
take_values f r zero = refl
take_values f r (suc n) = ap (λ vs. f r ∷ vs) (take_values f (suc r) n)

-- A read of any range of registers, from a chip that works and on a bus without errors, returns the
-- byte count of the range and the values of its registers, in order, and changes none.
pub read_range_lem :
    (chip : Chip) (stale first_reg last_reg : ℕ) (s : chip.State) (reply : Reply)
    → first_reg ≤ last_reg
    → last_reg < pic_num_registers
    → IsReply chip s (pic_read_register_range stale reply first_reg last_reg).0 reply
    → let (t, values) = pic_read_register_range stale reply first_reg last_reg in
      let n = last_reg - first_reg + 1 in
      (t.ret ≡ count_of (n * 2))
      × (values ≡ values_from (chip.reg s) first_reg n)
      × ((exchange_all chip t.txbuf s).1 ≡ s)
read_range_lem chip stale first_reg last_reg s reply ordered high h =
    let n = last_reg - first_reg + 1 in
    let e = read_sent stale first_reg last_reg reply ordered h.no_error in
    let x = exchange_all-read_words chip stale first_reg n s (ground arith) in
    let f = ap (λ r. (exchange_all chip r.0.txbuf s)) e ∙ x in
    (
      ap (λ r. r.0.ret) e,
      ap (λ r. r.1) e
          ∙ ap (take n) (h.received ∙ ap (λ r. r.0) f)
          ∙ take_values (chip.reg s) first_reg n,
      ap (λ r. r.1) f,
    )

-- On a chip that works and a bus without errors, making safe zeroes the six output registers and
-- leaves every other register as it was.
pub make_safe_lem :
    (chip : Chip) (stale : ℕ) (s : chip.State) (reply : Reply)
    → IsReply chip s (pic_make_safe stale reply) reply
    → let t = pic_make_safe stale reply in
      let d = (exchange_all chip t.txbuf s).1 in
      (t.ret ≡ count_of 12)
      × (values_from (chip.reg d) pic_first_output_register 6 ≡ 0 ∷ 0 ∷ 0 ∷ 0 ∷ 0 ∷ 0 ∷ [])
      × ((q : ℕ)
          → (q < pic_first_output_register) ⊎ (pic_last_output_register < q)
          → chip.reg d q ≡ chip.reg s q)
unfolding pic_make_safe
make_safe_lem chip stale s reply h =
    write_range_lem chip stale pic_first_output_register pic_last_output_register
      (0 ∷ 0 ∷ 0 ∷ 0 ∷ 0 ∷ 0 ∷ []) s reply (ground arith) (ground arith) refl (ground arith) h
