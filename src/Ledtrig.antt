-- ===== src/Ledtrig.antt =====
-- The smooth LED trigger (src/ledtrig_smooth.c): the pulser that alternates the target, its periods,
-- and the reverse lookup of a raw brightness in the gamma table.
pub mod Period
pub mod Lookup
pub mod Simulation
pub mod Rest
pub mod Activation
mod Tests
use kernel_module_glowforge.Base.{
  ℕ, zero, suc, ◌+◌, ◌-◌, ◌/◌, Bool, true, false, not, ◌&&◌, ◌||◌, Option, none, some, List, [],
  ◌∷◌, ltb, ◌==◌, if◌then◌else◌, get_or,
}

abbrev pub msecs_per_update : ℕ
msecs_per_update = 20

-- The counter is a C int: `negsuc n` is `-(n + 1)`.
pub data ℤ : Type 0 where
  pos negsuc : ℕ → ℤ

abbrev pub neg : ℕ → ℤ
neg zero = pos 0
neg (suc n) = negsuc n

abbrev pub next : ℤ → ℤ
next (pos n) = pos (suc n)
next (negsuc zero) = pos 0
next (negsuc (suc n)) = negsuc n

-- The members of `struct ledtrig_smooth_data` that the pulser uses; `target` is its integer part.
pub record Pulser : Type 0 where
  pub target : ℕ
  pub pulse_on_count : ℕ
  pub pulse_off_count : ℕ
  pub pulse_counter : ℤ

-- The counter is the number.
abbrev pub is_at : ℕ → ℤ → Bool
is_at n (pos m) = m == n
is_at n (negsuc m) = false

-- `update_pulser`; the answer is whether the LED pulses.
unfoldable pub update_pulser : Pulser → Bool × Pulser
update_pulser p =
    let up = record p { target = 255; pulse_counter = next p.pulse_counter } in
    let down = record p { target = 0; pulse_counter = next (neg p.pulse_off_count) } in
    let on = record p { pulse_counter = next p.pulse_counter } in
    if (p.pulse_on_count == 0) || (p.pulse_off_count == 0)
    then (false, p)
    else if is_at 0 p.pulse_counter
    then (true, up)
    else if is_at p.pulse_on_count p.pulse_counter
    then (true, down)
    else (true, on)

-- The counter is greater than the number, and less than its negation.
abbrev pub is_above : ℕ → ℤ → Bool
is_above n (pos m) = ltb n m
is_above n (negsuc m) = false

abbrev pub is_below_neg : ℕ → ℤ → Bool
is_below_neg n (pos m) = false
is_below_neg n (negsuc m) = ltb n (suc m)

-- `set_pulse_periods`; the answer is whether the LED pulses.
unfoldable pub set_pulse_periods : ℕ → ℕ → Pulser → Bool × Pulser
set_pulse_periods on off p =
    let counter =
      if not (on == 0) && is_above on p.pulse_counter
      then pos on
      else if not (off == 0) && is_below_neg off p.pulse_counter
      then neg (off - 1)
      else p.pulse_counter in
    let pulses = not ((on == 0) || (off == 0)) in
    (
      pulses,
      record p {
        pulse_on_count = on;
        pulse_off_count = off;
        pulse_counter = if pulses then counter else pos 0;
      },
    )

-- `pulse_on_store` and `pulse_off_store`, of a number of milliseconds; whether the simulation wakes.
unfoldable pub pulse_on_store : ℕ → Pulser → Bool × Pulser
unfolding set_pulse_periods
pulse_on_store new_on p = set_pulse_periods (new_on / msecs_per_update) p.pulse_off_count p

unfoldable pub pulse_off_store : ℕ → Pulser → Bool × Pulser
unfolding set_pulse_periods
pulse_off_store new_off p = set_pulse_periods p.pulse_on_count (new_off / msecs_per_update) p

abbrev pub correction_table : List ℕ
correction_table =
    0 ∷ 0 ∷ 0 ∷ 0 ∷ 0 ∷ 0 ∷ 0 ∷ 0 ∷ 0 ∷ 0 ∷ 0 ∷ 1 ∷ 1 ∷ 1 ∷ 1 ∷ 2 ∷ 2 ∷ 2 ∷ 2 ∷ 3 ∷ 3 ∷ 4 ∷ 4 ∷ 5
    ∷ 5 ∷ 6 ∷ 6 ∷ 7 ∷ 7 ∷ 8 ∷ 9 ∷ 9 ∷ 10 ∷ 11 ∷ 12 ∷ 12 ∷ 13 ∷ 14 ∷ 15 ∷ 16 ∷ 17 ∷ 18 ∷ 19 ∷ 20 ∷ 21
    ∷ 22 ∷ 23 ∷ 24 ∷ 25 ∷ 27 ∷ 28 ∷ 29 ∷ 30 ∷ 32 ∷ 33 ∷ 35 ∷ 36 ∷ 37 ∷ 39 ∷ 40 ∷ 42 ∷ 43 ∷ 45 ∷ 47
    ∷ 48 ∷ 50 ∷ 52 ∷ 54 ∷ 55 ∷ 57 ∷ 59 ∷ 61 ∷ 63 ∷ 65 ∷ 67 ∷ 69 ∷ 71 ∷ 73 ∷ 75 ∷ 77 ∷ 79 ∷ 82 ∷ 84
    ∷ 86 ∷ 88 ∷ 91 ∷ 93 ∷ 96 ∷ 98 ∷ 100 ∷ 103 ∷ 106 ∷ 108 ∷ 111 ∷ 113 ∷ 116 ∷ 119 ∷ 122 ∷ 124 ∷ 127
    ∷ 130 ∷ 133 ∷ 136 ∷ 139 ∷ 142 ∷ 145 ∷ 148 ∷ 151 ∷ 154 ∷ 157 ∷ 160 ∷ 164 ∷ 167 ∷ 170 ∷ 174 ∷ 177
    ∷ 180 ∷ 184 ∷ 187 ∷ 191 ∷ 194 ∷ 198 ∷ 202 ∷ 205 ∷ 209 ∷ 213 ∷ 216 ∷ 220 ∷ 224 ∷ 228 ∷ 232 ∷ 236
    ∷ 240 ∷ 244 ∷ 248 ∷ 252 ∷ 256 ∷ 260 ∷ 264 ∷ 269 ∷ 273 ∷ 277 ∷ 282 ∷ 286 ∷ 290 ∷ 295 ∷ 299 ∷ 304
    ∷ 309 ∷ 313 ∷ 318 ∷ 323 ∷ 327 ∷ 332 ∷ 337 ∷ 342 ∷ 347 ∷ 351 ∷ 356 ∷ 361 ∷ 366 ∷ 371 ∷ 377 ∷ 382
    ∷ 387 ∷ 392 ∷ 397 ∷ 403 ∷ 408 ∷ 413 ∷ 419 ∷ 424 ∷ 430 ∷ 435 ∷ 441 ∷ 446 ∷ 452 ∷ 458 ∷ 463 ∷ 469
    ∷ 475 ∷ 481 ∷ 487 ∷ 493 ∷ 498 ∷ 504 ∷ 510 ∷ 517 ∷ 523 ∷ 529 ∷ 535 ∷ 541 ∷ 547 ∷ 554 ∷ 560 ∷ 566
    ∷ 573 ∷ 579 ∷ 586 ∷ 592 ∷ 599 ∷ 606 ∷ 612 ∷ 619 ∷ 626 ∷ 632 ∷ 639 ∷ 646 ∷ 653 ∷ 660 ∷ 667 ∷ 674
    ∷ 681 ∷ 688 ∷ 695 ∷ 702 ∷ 710 ∷ 717 ∷ 724 ∷ 731 ∷ 739 ∷ 746 ∷ 754 ∷ 761 ∷ 769 ∷ 776 ∷ 784 ∷ 792
    ∷ 799 ∷ 807 ∷ 815 ∷ 823 ∷ 830 ∷ 838 ∷ 846 ∷ 854 ∷ 862 ∷ 870 ∷ 878 ∷ 887 ∷ 895 ∷ 903 ∷ 911 ∷ 920
    ∷ 928 ∷ 936 ∷ 945 ∷ 953 ∷ 962 ∷ 970 ∷ 979 ∷ 988 ∷ 996 ∷ 1005 ∷ 1014 ∷ 1023 ∷ []

-- The loop of `value_from_raw_brightness` over a table: `mid` is the last index looked at, and `none`
-- stands for running out of fuel.
unfoldable pub search_from : (ℕ → ℕ) → ℕ → ℕ → ℕ → ℕ → ℕ → Option ℕ
search_from table raw zero start end mid = if ltb start end then none else some mid
search_from table raw (suc fuel) start end mid =
    let m = start + (end - start) / 2 in
    let found = table m == raw in
    let below = ltb raw (table m) in
    let rest =
      search_from table raw fuel (if below then start else m + 1) (if below then m else end) m in
    if ltb start end then if found then some m else rest else some mid

-- `value_from_raw_brightness`: the integer part of the value. The loop halves a range of 256.
unfoldable pub value_from_raw_brightness : ℕ → Option ℕ
value_from_raw_brightness raw_brightness =
    search_from (λ i. get_or correction_table i 0) raw_brightness 256 0 256 0
