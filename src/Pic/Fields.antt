-- ===== src/Pic/Fields.antt =====
-- What a text of commands sends to the chip, command by command.
use kernel_module_glowforge.Base.{
  ℕ, zero, suc, ◌+◌, ◌-◌, ◌*◌, ◌/◌, ◌%◌, ◌≤◌, ◌<◌, ◌≡◌, List, [], ◌∷◌, Option, none, some, length,
  take_all, ◌==◌, if◌then◌else◌, refl, sym, ap, ◌∙◌, arith,
}
use kernel_module_glowforge.Kernel.{Errno, of_status}
use kernel_module_glowforge.Buffer.{Count, count_of, failed}
use kernel_module_glowforge.Pic.{
  PicTransaction, pic_num_registers, pic_first_output_register, pic_last_output_register,
}
use kernel_module_glowforge.Pic.Chip.{Chip, exchange_all}
use kernel_module_glowforge.Pic.Raw.{
  PicBuffers, Answer, max_registers_per_transfer, transaction_size, pic_write_data, transferred,
}
use kernel_module_glowforge.Pic.Hex.{
  page_size, Scanned, one_field, word_of, push, commas, after_comma, scan_words, hex_store,
  hex_read_command,
}

-- The texts after the commas, up to a zero.
abbrev pub later_fields : List ℕ → List (List ℕ)
later_fields [] = []
later_fields (c ∷ cs) =
    if c == 0 then [] else if c == 44 then cs ∷ later_fields cs else later_fields cs

-- The words of texts, of which each starts with a command.
abbrev pub all_words : (List ℕ → Scanned) → List (List ℕ) → Option (List PicTransaction)
all_words scan [] = some []
all_words scan (t ∷ ts) = push (word_of (scan t)) (all_words scan ts)

abbrev rest_fields : Option (List ℕ) → List (List ℕ)
rest_fields none = []
rest_fields (some t) = t ∷ later_fields t

later_fields-after_comma : (t : List ℕ) → later_fields t ≡ rest_fields (after_comma t)
later_fields-after_comma [] = refl
later_fields-after_comma (c ∷ cs) = let h = later_fields-after_comma cs in ground arith

later_fields-commas : (t : List ℕ) → length (later_fields t) ≤ commas t
later_fields-commas [] = omega arith
later_fields-commas (c ∷ cs) = let h = later_fields-commas cs in ground arith

push-length :
    (w : Option PicTransaction) (rest : Option (List PicTransaction)) (n : ℕ)
    (ws : List PicTransaction)
    → ((us : List PicTransaction) → rest ≡ some us → length us ≡ n)
    → push w rest ≡ some ws
    → length ws ≡ suc n
push-length none rest n ws h e = ground arith
push-length (some w) none n ws h e = ground arith
push-length (some w) (some us) n ws h e = let q = h us refl in ground arith

module _ (scan : List ℕ → Scanned) where
  scan_words_all :
      (n : ℕ) (t : Option (List ℕ))
      → length (rest_fields t) ≤ n
      → scan_words scan n t ≡ all_words scan (rest_fields t)
  unfolding scan_words
  scan_words_all zero none l = refl
  scan_words_all zero (some t) l = elim (nothing l) [ ]
    where
      nothing : suc (length (later_fields t)) ≤ 0 → ⊥
      nothing l = omega arith
  scan_words_all (suc n) none l = refl
  scan_words_all (suc n) (some t) l =
      let e = later_fields-after_comma t in
      rw e (
        ap (λ r. push (word_of (scan t)) r)
          (scan_words_all n (after_comma t) (rw (sym e) (omega arith))))

  all_words-length :
      (ts : List (List ℕ)) (ws : List PicTransaction)
      → all_words scan ts ≡ some ws
      → length ws ≡ length ts
  all_words-length [] ws e = ground arith
  all_words-length (t ∷ ts) ws e =
      push-length (word_of (scan t)) (all_words scan ts) (length ts) ws
        (λ us q. all_words-length ts us q) e

write_all :
    (answer : Answer) (raw : List PicTransaction) (self : PicBuffers)
    → length raw ≤ max_registers_per_transfer
    → pic_write_data answer raw (length raw * transaction_size) self ≡ record {
      ret = of_status answer.status;
      words = raw;
      buffers = transferred (length raw * transaction_size) answer self;
    }
unfolding pic_write_data
write_all answer raw self l =
    let n : length raw * 3 / 3 ≡ length raw = omega arith in
    let r : length raw * 3 % 3 ≡ 0 = omega arith in rw (n, r, take_all raw) (ground arith)

-- What is made of the words of a text's fields, with the text's length.
abbrev pub outcome :
    Answer
    → ℕ
    → PicBuffers
    → Option (List PicTransaction)
    → Count × List PicTransaction × PicBuffers
outcome answer count self none = (failed Errno.einval, [], self)
outcome answer count self (some ws) = (
  (if answer.status == 0 then count_of count else failed (Errno.os answer.status)),
  ws,
  transferred (length ws * transaction_size) answer self,
)

outcome_lem :
    (scan : List ℕ → Scanned) (answer : Answer) (buf : List ℕ) (self : PicBuffers)
    (words : Option (List PicTransaction))
    → 0 < length buf
    → length buf < page_size
    → commas buf < max_registers_per_transfer
    → scan_words scan (1 + commas buf) (some buf) ≡ words
    → length (outcome answer (length buf) self words).1 ≤ max_registers_per_transfer
    → hex_store scan answer buf self ≡ outcome answer (length buf) self words
unfolding hex_store
outcome_lem scan answer buf self none some_text page few e l = rw e (ground arith)
outcome_lem scan answer buf self (some ws) some_text page few e l =
    rw (e, write_all answer ws self l) (ground arith)

-- A text of commands that is not empty, fits a page and has at most 33 commas sends one word for each
-- of its fields, in their order, and no other, and no more than the buffer of a transfer holds; where
-- one of the fields is no command, nothing is sent and an error returned.
pub hex_store_lem :
    (scan : List ℕ → Scanned) (answer : Answer) (buf : List ℕ) (self : PicBuffers)
    → 0 < length buf
    → length buf < page_size
    → commas buf < max_registers_per_transfer
    → let sent = outcome answer (length buf) self (all_words scan (buf ∷ later_fields buf)) in
      (hex_store scan answer buf self ≡ sent) × (length sent.1 ≤ max_registers_per_transfer)
hex_store_lem scan answer buf self some_text page few =
    let fields = buf ∷ later_fields buf in
    let fuel : length fields ≤ 1 + commas buf = omega (arith, later_fields-commas buf) in
    let all = scan_words_all scan (1 + commas buf) (some buf) fuel in
    let small =
      sent_fits (all_words scan fields) (λ ws e. all_words-length scan fields ws e) fuel in
    (outcome_lem scan answer buf self _ some_text page few all small, small)
  where
    sent_fits :
        (words : Option (List PicTransaction))
        → ((ws : List PicTransaction)
            → words ≡ some ws
            → length ws ≡ suc (length (later_fields buf)))
        → suc (length (later_fields buf)) ≤ 1 + commas buf
        → length (outcome answer (length buf) self words).1 ≤ max_registers_per_transfer
    sent_fits none n l = omega arith
    sent_fits (some ws) n l = omega (arith, n ws refl)

-- The word that a text of one command sends
one_sent :
    (scan : List ℕ → Scanned) (answer : Answer) (buf : List ℕ) (self : PicBuffers) (reg : ℕ)
    → 0 < length buf
    → length buf < page_size
    → commas buf ≡ 0
    → scan buf ≡ one_field reg
    → (hex_store scan answer buf self).1 ≡ record { cmd = hex_read_command reg; value = 0 } ∷ []
one_sent scan answer buf self reg some_text page none_more found =
    let sent = (hex_store_lem scan answer buf self some_text page (omega arith)).0 in
    let alone = no_more (later_fields buf) (omega (arith, later_fields-commas buf)) in
    ap (λ o. o.1) sent
    ∙ ap (λ ts. (outcome answer (length buf) self (all_words scan (buf ∷ ts))).1) alone
    ∙ ap (λ f. (outcome answer (length buf) self (push (word_of f) (some []))).1) found
  where
    no_more : (ts : List (List ℕ)) → length ts ≤ 0 → ts ≡ []
    no_more [] l = refl
    no_more (t ∷ ts) l = absurd (omega arith)

-- A text of one command of a read, of any register of eight bits, written to the attribute, on a
-- chip that works: where the chip has the register, it is answered and none is changed; but where the
-- number is 64 more than an output register's, the command cut to eight bits is a write, and that
-- register is set to 0. The text is not empty, fits a page and has no comma.
pub read_command :
    (scan : List ℕ → Scanned) (answer : Answer) (buf : List ℕ) (self : PicBuffers) (chip : Chip)
    (s : chip.State) (reg : ℕ)
    → 0 < length buf
    → length buf < page_size
    → commas buf ≡ 0
    → scan buf ≡ one_field reg
    → let sent = (hex_store scan answer buf self).1 in
      let (values, t) = exchange_all chip sent s in
      (reg < pic_num_registers → (values ≡ chip.reg s reg ∷ []) × (t ≡ s))
      × (64 + pic_first_output_register ≤ reg
          → reg ≤ 64 + pic_last_output_register
          → (q : ℕ) → chip.reg t q ≡ (if q == reg - 64 then 0 else chip.reg s q))
unfolding exchange_all
read_command scan answer buf self chip s reg some_text page none_more found =
    let sent = one_sent scan answer buf self reg some_text page none_more found in
    (
      λ l.
          let e : hex_read_command reg ≡ reg * 2 = omega arith in
          let r = chip.read_lem reg 0 s l in rw (sent, e, r) (refl, refl),
      λ a b q.
          let e : hex_read_command reg ≡ 128 + (reg - 64) * 2 = omega arith in
          let w = chip.write_lem (reg - 64) 0 q s (omega arith) (omega arith) in
          rw (sent, e, w) refl,
    )
