-- ===== src/Pic/HexTests.antt =====
-- Texts of commands, and what is shown of the last transfer.
use kernel_module_glowforge.Base.{
  ℕ, zero, suc, ◌+◌, ◌-◌, ◌*◌, ◌≤◌, ◌<◌, ◌≡◌, true, false, List, [], ◌∷◌, some, length, get_or,
  ◌==◌, if◌then◌else◌, refl, arith,
}
use kernel_module_glowforge.Kernel.{Errno}
use kernel_module_glowforge.Buffer.{failed}
use kernel_module_glowforge.Pic.{PicTransaction}
use kernel_module_glowforge.Pic.Chip.{exchange_all}
use kernel_module_glowforge.Pic.Raw.{
  PicBuffers, Answer, settle_rounds, pic_write_data, pic_copy_last_read_data,
}
use kernel_module_glowforge.Pic.Hex.{
  Scanned, no_fields, one_field, two_fields, scan_words, hex_store, hex_show,
}
use kernel_module_glowforge.Pic.Fields.{outcome, hex_store_lem, read_command}
use kernel_module_glowforge.Pic.Buffers.{PicOp, reads_range, writes_data, pic_ops}
use kernel_module_glowforge.Pic.Leds.{pic_led_set}
use kernel_module_glowforge.Pic.LedOrder.{LedStep, requests, works, Leds, all_queued}
use kernel_module_glowforge.Pic.LastRead.{last_read_fits}
use kernel_module_glowforge.Pic.Tests.{working_chip, sevens}

abbrev repeated : ℕ → PicTransaction → List PicTransaction
repeated zero w = []
repeated (suc n) w = w ∷ repeated n w

abbrev empty_word : PicTransaction
empty_word = record { cmd = 0; value = 0 }

abbrev buffers : PicBuffers
buffers = record { rxbuf = repeated 34 empty_word; rxbuf_size = 0 }

-- Each word comes back as 0x12ab.
abbrev answered : Answer
answered = record { status = 0; received = repeated 34 (record { cmd = 0; value = 0x12ab }) }

-- A scan of one hexadecimal digit, and of one more after `=`.
abbrev scan_digits : List ℕ → Scanned
scan_digits [] = no_fields
scan_digits (a ∷ rest) =
    if a == 44
    then no_fields
    else if get_or rest 0 0 == 61
    then two_fields (a - 48) (get_or rest 1 0 - 48)
    else one_field (a - 48)

-- `9=5,3`
abbrev text : List ℕ
text = 57 ∷ 61 ∷ 53 ∷ 44 ∷ 51 ∷ []

abbrev two_words : List PicTransaction
two_words = record { cmd = 146; value = 5 } ∷ record { cmd = 6; value = 0 } ∷ []

sent : (hex_store scan_digits answered text buffers).1 ≡ two_words
unfolding hex_store scan_words pic_write_data
sent = refl

-- An empty command sends nothing.
refused : (hex_store scan_digits answered (57 ∷ 44 ∷ 44 ∷ []) buffers).0 ≡ failed Errno.einval
unfolding hex_store scan_words pic_write_data
refused = refl

-- `12ab,12ab`
shown :
    hex_show (hex_store scan_digits answered text buffers).2
    ≡ 49 ∷ 50 ∷ 97 ∷ 98 ∷ 44 ∷ 49 ∷ 50 ∷ 97 ∷ 98 ∷ 10 ∷ []
unfolding hex_show hex_store scan_words pic_write_data
shown = refl

waits : settle_rounds 400 120 ≡ 50 ∷ 50 ∷ 20 ∷ []
unfolding settle_rounds
waits = refl

hex_store_lem_example :
    let sent = outcome answered 5 buffers (some two_words) in
    (hex_store scan_digits answered text buffers ≡ sent) × (length sent.1 ≤ 34)
hex_store_lem_example =
    hex_store_lem scan_digits answered text buffers (omega arith) (omega arith) (omega arith)

-- A scan of two decimal digits as hexadecimal ones
abbrev scan_two_digits : List ℕ → Scanned
scan_two_digits text = one_field ((get_or text 0 0 - 48) * 16 + (get_or text 1 0 - 48))

-- 0x49 is 64 more than 9: the register of the X axis' current.
read_command_example :
    let sent = (hex_store scan_two_digits answered (52 ∷ 57 ∷ 10 ∷ []) buffers).1 in
    let (values, t) = exchange_all working_chip sent sevens in
    (0x49 < 17 → (values ≡ 7 ∷ []) × (t ≡ sevens))
    × (73 ≤ 0x49 → 0x49 ≤ 78 → (q : ℕ) → t q ≡ (if q == 9 then 0 else 7))
read_command_example =
    read_command scan_two_digits answered (52 ∷ 57 ∷ 10 ∷ []) buffers working_chip sevens 0x49
      (omega arith) (omega arith) refl refl

abbrev transfers : List (PicOp × Answer)
transfers = (reads_range 0 16, answered) ∷ (writes_data two_words 6, answered) ∷ []

last_read_fits_example :
    let t = pic_ops 0 transfers buffers in
    let (words, bytes) = pic_copy_last_read_data t in
    (length words * 3 ≡ bytes) × (length words ≤ 34) × (length (hex_show t) ≤ 171)
last_read_fits_example =
    last_read_fits 0 transfers buffers (refl, refl, omega arith)
      ((omega arith, refl), ((tt, refl), tt))

-- A burst on one LED, of which the second is above the maximum, one piece of it done.
abbrev burst : List LedStep
burst =
    requests true true 11 5
    ∷ requests true true 11 2000
    ∷ requests true false 12 9
    ∷ works 0 (record { status = 0; rxbuf = [] })
    ∷ []

abbrev idle_leds : Leds working_chip
idle_leds = record { queue = []; state = sevens }

later_is_capped :
    all_queued working_chip burst
    ≡ record { reg = 11; value = 5 } ∷ record { reg = 11; value = 1023 } ∷ []
unfolding pic_led_set
later_is_capped = refl
