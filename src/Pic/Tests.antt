-- ===== src/Pic/Tests.antt =====
-- A chip that works, and the theorems at it.
use kernel_module_glowforge.Base.{
  ℕ, ◌+◌, ◌-◌, ◌*◌, ◌/◌, ◌≤◌, ◌<◌, ◌≡◌, ◌⊎◌, [], ◌∷◌, refl, arith, ltb, leb, ◌==◌, ◌&&◌,
  if◌then◌else◌,
}
use kernel_module_glowforge.Buffer.{count_of}
use kernel_module_glowforge.Pic.{
  PicTransaction, Reply, pic_write_register_range, pic_read_register_range, pic_make_safe,
  pic_first_output_register, pic_last_output_register,
}
use kernel_module_glowforge.Pic.Chip.{Chip, exchange_all, values_from}
use kernel_module_glowforge.Pic.Registers.{IsReply, write_range_lem, read_range_lem, make_safe_lem}

-- A register file as a function, with the answer and the effect of one word.
abbrev pub answer_word : PicTransaction → (ℕ → ℕ) → ℕ × (ℕ → ℕ)
answer_word t s =
    let r = (t.cmd - 128) / 2 in
    if ltb t.cmd 128
    then (s (t.cmd / 2), s)
    else if leb pic_first_output_register r && leb r pic_last_output_register
    then (0, λ q. if q == r then t.value else s q)
    else (0, s)

pub read_answer :
    (r v : ℕ) (s : ℕ → ℕ) → r < 17 → answer_word (record { cmd = r * 2; value = v }) s ≡ (s r, s)
read_answer r v s h = let e : r * 2 / 2 ≡ r = ground arith in rw e (ground arith)

pub write_answer :
    (r v q : ℕ) (s : ℕ → ℕ)
    → pic_first_output_register ≤ r
    → r ≤ pic_last_output_register
    → (answer_word (record { cmd = 128 + r * 2; value = v }) s).1 q ≡ (if q == r then v else s q)
write_answer r v q s low high =
    let e : (128 + r * 2 - 128) / 2 ≡ r = ground arith in rw e (ground arith)

abbrev pub working_chip : Chip
working_chip = record {
  State = ℕ → ℕ;
  reg = λ s r. s r;
  exchange = answer_word;
  read_lem = read_answer;
  write_lem = write_answer;
}

-- All registers hold 7.
abbrev pub sevens : ℕ → ℕ
sevens q = 7

abbrev reply_to_write : Reply
reply_to_write = record { status = 0; rxbuf = 0 ∷ 0 ∷ 33 ∷ 5 ∷ [] }

abbrev reply_to_read : Reply
reply_to_read = record { status = 0; rxbuf = 7 ∷ 7 ∷ 7 ∷ [] }

abbrev reply_to_zeros : Reply
reply_to_zeros = record { status = 0; rxbuf = 0 ∷ 0 ∷ 0 ∷ 0 ∷ 0 ∷ 0 ∷ 0 ∷ 0 ∷ 0 ∷ 0 ∷ 0 ∷ 0 ∷ [] }

write_IsReply :
    IsReply working_chip sevens
      (pic_write_register_range 0 reply_to_write 9 10 (33 ∷ 5 ∷ []) 4)
      reply_to_write
unfolding pic_write_register_range exchange_all
write_IsReply = record { no_error = refl; received = refl }

read_IsReply :
    IsReply working_chip sevens (pic_read_register_range 0 reply_to_read 1 3).0 reply_to_read
unfolding pic_read_register_range exchange_all
read_IsReply = record { no_error = refl; received = refl }

zeros_IsReply : IsReply working_chip sevens (pic_make_safe 0 reply_to_zeros) reply_to_zeros
unfolding pic_make_safe pic_write_register_range exchange_all
zeros_IsReply = record { no_error = refl; received = refl }

write_range_lem_example :
    let t = pic_write_register_range 0 reply_to_write 9 10 (33 ∷ 5 ∷ []) 4 in
    let d = (exchange_all working_chip t.txbuf sevens).1 in
    (t.ret ≡ count_of 4)
    × (values_from d 9 2 ≡ 33 ∷ 5 ∷ [])
    × ((q : ℕ) → (q < 9) ⊎ (10 < q) → d q ≡ 7)
write_range_lem_example =
    write_range_lem working_chip 0 9 10 (33 ∷ 5 ∷ []) sevens reply_to_write (ground arith)
      (ground arith) refl (ground arith) write_IsReply

reads_three_registers :
    let (t, values) = pic_read_register_range 0 reply_to_read 1 3 in
    (t.ret ≡ count_of 6)
    × (values ≡ values_from sevens 1 3)
    × ((exchange_all working_chip t.txbuf sevens).1 ≡ sevens)
reads_three_registers =
    read_range_lem working_chip 0 1 3 sevens reply_to_read (ground arith) (ground arith)
      read_IsReply

zeroes_outputs :
    let t = pic_make_safe 0 reply_to_zeros in
    let d = (exchange_all working_chip t.txbuf sevens).1 in
    (t.ret ≡ count_of 12)
    × (values_from d 9 6 ≡ 0 ∷ 0 ∷ 0 ∷ 0 ∷ 0 ∷ 0 ∷ [])
    × ((q : ℕ) → (q < 9) ⊎ (14 < q) → d q ≡ 7)
zeroes_outputs = make_safe_lem working_chip 0 sevens reply_to_zeros zeros_IsReply
