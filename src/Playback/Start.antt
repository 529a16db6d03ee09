-- ===== src/Playback/Start.antt =====
-- The ring and the engine as the driver's probe leaves them (`cnc_buffer_init`, src/cnc_buffer.c, and
-- `load_sdma_script`, src/cnc.c).
use kernel_module_glowforge.Base.{
  ℕ, zero, suc, ◌+◌, ◌-◌, ◌*◌, ◌%◌, ◌^◌, ◌≤◌, ◌≡◌, ◌≢◌, inl, inr, Bool, true, false, not, ◌||◌,
  List, [], ◌++◌, ltb, ◌==◌, if◌then◌else◌, refl, sym, ap, ◌∙◌, leb, zero_plus, suc_plus, All,
  Bool-cases, arith,
}
use native.Mathlib.Nat.{two-pow-succ, pow-zero, add-mul, pow-le-pow_right, mod-eq_of_lt}
use kernel_module_glowforge.Kernel.{ok}
use kernel_module_glowforge.Ring.{Fifo, Ring, Kfifo}
use kernel_module_glowforge.Buffer.Init.{FifoSetup, PulseMemory, checked_mb, buffer_init}
use kernel_module_glowforge.Cnc.State.{Faults}
use kernel_module_glowforge.Cnc.Fault.{probe}
use kernel_module_glowforge.Engine.{Engine, no_lines}
use kernel_module_glowforge.Engine.Bytes.{Memory}
use kernel_module_glowforge.Playback.{Copier, System, Step, run}
use kernel_module_glowforge.Playback.Fed.{contents, IsFed, IsAllowed}
use kernel_module_glowforge.Playback.Order.{plays_in_order}

-- The context that `load_sdma_script` loads: the script at its start, everything else zero but the
-- direction.
abbrev pub initial_context : Engine
initial_context = record {
  at_start = true;
  after_power = false;
  r2 = 0;
  lines = no_lines;
  lock = no_lines;
  inhibit = no_lines;
  x = 0;
  y = 0;
  z = 0;
  count = 0;
  head = 0;
  tail = 0;
  direction = 1;
  countdown = 0;
  outputs = [];
}

-- Its arguments on the ring: the index mask and the address; the memory holds any bytes.
abbrev pub script_memory : (ℕ → ℕ) → PulseMemory → Fifo → Memory
script_memory bytes m f = record {
  size = f.mask + 1;
  byte_at = bytes;
  is_mapped = not (m.pulsebuf_phys == 0);
}

-- The driver, the memory and the engine after the probe, where the ring is set up.
abbrev pub started : FifoSetup → ℕ → ℕ → ℕ → Fifo → (ℕ → ℕ) → Faults → System
started s virt phys ring_mb f bytes live =
    let (ret, m, ring) = buffer_init s virt phys ring_mb f in
    record {
      cnc = probe live ring;
      memory = script_memory bytes m ring.fifo;
      engine = initial_context;
    }

split_power : (a b : ℕ) → 2 ^ a * 2 ^ b ≡ 2 ^ (a + b)
split_power zero b = rw (pow-zero 2, zero_plus b) (omega arith)
split_power (suc a) b =
    let h = split_power a b in
    let e = two-pow-succ a in
    let f = two-pow-succ (a + b) in
    rw (suc_plus a b, e, f, add-mul (2 ^ a) (2 ^ a) (2 ^ b)) (omega arith)

small_exponent : (e : ℕ) → 2 ^ e ≤ 1024 → e ≤ 10
small_exponent e l = elim (Bool-cases (leb e 10)) [
  | inl y ↦ ground arith
  | inr n ↦
      elim (too_large (pow-le-pow_right {n = 2} (omega arith) {i = 11} {j = e} (ground arith))) [ ]
]
  where
    too_large : 2 ^ 11 ≤ 2 ^ e → ⊥
    too_large g = omega arith

-- The size that is set up is a power of two of at most a gibibyte.
abbrev pub ring_exponent : FifoSetup → ℕ → ℕ
ring_exponent s ring_mb =
    if not (s.is_power_of_2 ring_mb) || ltb ring_mb 1 || ltb 1024 ring_mb
    then 5
    else s.exponent ring_mb

checked_mb-power :
    (s : FifoSetup) (ring_mb : ℕ)
    → let e = ring_exponent s ring_mb in (checked_mb s ring_mb ≡ 2 ^ e) × (e ≤ 10)
checked_mb-power s ring_mb = elim (Bool-cases refused) [
  | inl y ↦ rw y (refl, omega arith)
  | inr n ↦
      let p = s.exponent_lem ring_mb (ground arith) in
      rw n (p, small_exponent (s.exponent ring_mb) (ground arith))
]
  where
    refused : Bool
    refused = not (s.is_power_of_2 ring_mb) || ltb ring_mb 1 || ltb 1024 ring_mb

ring_size :
    (s : FifoSetup) (ring_mb : ℕ)
    → let e = ring_exponent s ring_mb in
      (checked_mb s ring_mb * 2 ^ 20 % 2 ^ 32 ≡ 2 ^ (e + 20))
      × (2 ^ (12 - e) * 2 ^ (e + 20) ≡ 2 ^ 32)
      × (2 ^ (e + 20) ≤ 2 ^ 30)
      × (2 ^ 20 ≤ 2 ^ (e + 20))
ring_size s ring_mb =
    let e = ring_exponent s ring_mb in
    let (power, small) = checked_mb-power s ring_mb in
    let size = ap (λ n. n * 2 ^ 20) power ∙ split_power e 20 in
    let top = pow-le-pow_right {n = 2} (omega arith) {i = e + 20} {j = 30} (omega arith) in
    let low = pow-le-pow_right {n = 2} (omega arith) {i = 20} {j = e + 20} (omega arith) in
    (
      ap (λ n. n % 2 ^ 32) size ∙ mod-eq_of_lt (omega arith),
      split_power (12 - e) (e + 20) ∙ ap (λ n. 2 ^ n) (whole e small),
      top,
      low,
    )
  where
    whole : (e : ℕ) → e ≤ 10 → 12 - e + (e + 20) ≡ 32
    whole e l = omega arith

abbrev empty_fifo : ℕ → Fifo
empty_fifo e = record { in_ix = 0; out_ix = 0; mask = 2 ^ (e + 20) - 1 }

-- What `cnc_buffer_init` leaves where it is given memory.
set_up :
    (s : FifoSetup) (virt phys ring_mb : ℕ) (f : Fifo)
    → virt ≢ 0
    → let e = ring_exponent s ring_mb in
      buffer_init s virt phys ring_mb f ≡ (
        ok,
        record { pulsebuf_virt = virt; pulsebuf_phys = phys; pulsebuf_size = 2 ^ (e + 20) },
        record { fifo = empty_fifo e; total_bytes = 0 },
      )
unfolding buffer_init
set_up s virt phys ring_mb f v =
    let e = ring_exponent s ring_mb in
    let small = (checked_mb-power s ring_mb).1 in
    let size = (ring_size s ring_mb).0 in
    let init = s.kfifo_init_lem (e + 20) f (omega arith) (omega arith) in
    rw (size, init) (ground arith)

pub probe-ring : (live : Faults) (ring : Ring) → (probe live ring).ring ≡ ring
unfolding probe
probe-ring live ring = ground arith

-- The system that starts with a ring of `2 ^ (e + 20)` bytes.
abbrev ready : ℕ → ℕ → (ℕ → ℕ) → Faults → System
ready e phys bytes live =
    let fifo = empty_fifo e in
    record {
      cnc = probe live (record { fifo = fifo; total_bytes = 0 });
      memory = record { size = fifo.mask + 1; byte_at = bytes; is_mapped = not (phys == 0) };
      engine = initial_context;
    }

ready-IsFed :
    (k : Kfifo) (e phys : ℕ) (bytes : ℕ → ℕ) (live : Faults)
    → phys ≢ 0
    → 2 ^ (12 - e) * 2 ^ (e + 20) ≡ 2 ^ 32
    → 2 ^ (e + 20) ≤ 2 ^ 30
    → 2 ^ 20 ≤ 2 ^ (e + 20)
    → IsFed k (2 ^ (12 - e)) (ready e phys bytes live)
ready-IsFed k e phys bytes live p turns top low =
    let fifo = empty_fifo e in
    let ring : Ring = record { fifo = fifo; total_bytes = 0 } in
    let r = probe-ring live ring in
    let whole : fifo.mask + 1 ≡ 2 ^ (e + 20) = omega arith in
    record {
      turns_lem = rw whole turns;
      size_lem = rw r (sym (k.size_lem fifo));
      size_max = omega arith;
      mapped = ground arith;
      in_word = rw r (omega arith);
      head_word = omega arith;
      tail_word = omega arith;
      direction = inr refl;
      published = rw r (omega arith);
      filled = rw r (omega arith);
    }

pub started-IsFed :
    (k : Kfifo) (s : FifoSetup) (virt phys ring_mb : ℕ) (f : Fifo) (bytes : ℕ → ℕ) (live : Faults)
    → virt ≢ 0
    → phys ≢ 0
    → IsFed k (2 ^ (12 - ring_exponent s ring_mb)) (started s virt phys ring_mb f bytes live)
started-IsFed k s virt phys ring_mb f bytes live v p =
    let e = ring_exponent s ring_mb in
    let (size, turns, top, low) = ring_size s ring_mb in
    rw (set_up s virt phys ring_mb f v) (ready-IsFed k e phys bytes live p turns top low)

ready_empty : (e phys : ℕ) (bytes : ℕ → ℕ) (live : Faults) → contents (ready e phys bytes live) ≡ []
ready_empty e phys bytes live =
    rw (probe-ring live (record { fifo = empty_fifo e; total_bytes = 0 })) refl

module _ (k : Kfifo) (cp : Copier) (s : FifoSetup) (virt phys ring_mb : ℕ) (f : Fifo)
    (bytes : ℕ → ℕ) (live : Faults) where
  -- From the probe on, the engine plays just what the driver takes, in the order taken and from its
  -- beginning: over any writes, starts that play forward and bytes of the engine, what was taken is what was played followed by
  -- what is still to play, whatever size the module's parameter asks for and whatever the memory held.
  -- The ring's memory is allocated, and no write asks for more bytes than an index and the gap have
  -- room for.
  pub plays_what_it_takes :
      (steps : List Step)
      → virt ≢ 0
      → phys ≢ 0
      → All IsAllowed steps
      → let (taken, played, t) = run k cp steps (started s virt phys ring_mb f bytes live) in
        ((buffer_init s virt phys ring_mb f).0 ≡ ok) × (taken ≡ played ++ contents t)
  plays_what_it_takes steps v p fit =
      let e = ring_exponent s ring_mb in
      let up = set_up s virt phys ring_mb f v in
      let fed = started-IsFed k s virt phys ring_mb f bytes live v p in
      let start = started s virt phys ring_mb f bytes live in
      let account = plays_in_order k cp (2 ^ (12 - e)) steps start fed fit in
      let none : contents start ≡ [] = rw up (ready_empty e phys bytes live) in
      (ap (λ r. r.0) up, sym (ap (λ l. l ++ (run k cp steps start).0) none) ∙ account.1)
