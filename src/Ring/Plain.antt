-- ===== src/Ring/Plain.antt =====
-- A kfifo that obeys the documented laws: the assumptions on it can be met.
use kernel_module_glowforge.Base.{◌+◌, ◌≡◌, ◌↔◌, refl, true, ◌==◌, add32, sub32, arith}
use kernel_module_glowforge.Ring.{Fifo, Kfifo, unplayed}

pub empty_iff : (f : Fifo) → ((f.in_ix == f.out_ix) ≡ true) ↔ (f.in_ix ≡ f.out_ix)
empty_iff f = ground arith

abbrev pub plain_kfifo : Kfifo
plain_kfifo = record {
  size = λ f. f.mask + 1;
  avail = λ f. sub32 (f.mask + 1) (unplayed f);
  is_empty = λ f. f.in_ix == f.out_ix;
  advance = λ f n. record f { in_ix = add32 f.in_ix n };
  reset = λ f. record f { in_ix = 0; out_ix = 0 };
  size_lem = λ f. refl;
  avail_lem = λ f. refl;
  is_empty_iff = empty_iff;
  advance_lem = λ f n. refl;
  reset_lem = λ f. refl;
}
