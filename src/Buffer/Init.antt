-- ===== src/Buffer/Init.antt =====
-- Setting the ring up (`cnc_buffer_init`, `cnc_buffer_destroy`, src/cnc_buffer.c). The kernel's
-- `is_power_of_2` and `kfifo_init` are a parameter.
use kernel_module_glowforge.Base.{
  ℕ, ◌-◌, ◌*◌, ◌%◌, ◌^◌, ◌<◌, ◌≡◌, Bool, true, not, ◌&&◌, ◌||◌, ltb, ◌==◌, if◌then◌else◌,
}
use kernel_module_glowforge.Kernel.{Ret, fail, Errno, of_status}
use kernel_module_glowforge.Ring.{Fifo, Ring}

-- A number is a power of two where the test says so, of its `exponent`; a kfifo over a buffer whose
-- size is a power of two from 2 on starts empty at index 0.
pub record FifoSetup : Type 0 where
  pub is_power_of_2 : ℕ → Bool
  pub exponent : ℕ → ℕ
  pub kfifo_init : ℕ → Fifo → ℕ × Fifo
  pub exponent_lem : (n : ℕ) → is_power_of_2 n ≡ true → n ≡ 2 ^ exponent n
  pub kfifo_init_lem :
      (e : ℕ) (f : Fifo)
      → 0 < e
      → e < 32
      → kfifo_init (2 ^ e) f ≡ (0, record { in_ix = 0; out_ix = 0; mask = 2 ^ e - 1 })

abbrev pub default_mb : ℕ
default_mb = 32

-- The members that describe the memory of the ring: addresses are 0 where there is none.
pub record PulseMemory : Type 0 where
  pub pulsebuf_virt : ℕ
  pub pulsebuf_phys : ℕ
  pub pulsebuf_size : ℕ

-- The size of the ring in MiB, as the module's parameter gives it, or the default.
abbrev pub checked_mb : FifoSetup → ℕ → ℕ
checked_mb s ring_mb =
    if not (s.is_power_of_2 ring_mb) || ltb ring_mb 1 || ltb 1024 ring_mb
    then default_mb
    else ring_mb

-- `cnc_buffer_init`, where `virt` and `phys` are what `dma_alloc_coherent` gives
unfoldable pub buffer_init : FifoSetup → ℕ → ℕ → ℕ → Fifo → Ret × PulseMemory × Ring
buffer_init s virt phys ring_mb f =
    let size = checked_mb s ring_mb * 2 ^ 20 % 2 ^ 32 in
    let memory : PulseMemory = record {
      pulsebuf_virt = virt;
      pulsebuf_phys = phys;
      pulsebuf_size = size;
    } in
    let (status, g) = s.kfifo_init size f in
    if virt == 0
    then (fail Errno.enomem, memory, record { fifo = f; total_bytes = 0 })
    else (of_status status, memory, record { fifo = g; total_bytes = 0 })

-- `cnc_buffer_destroy`: whether the memory is given back, and the members afterwards.
abbrev pub buffer_destroy : PulseMemory → Bool × PulseMemory
buffer_destroy m = (
  not (m.pulsebuf_virt == 0) && not (m.pulsebuf_phys == 0) && not (m.pulsebuf_size == 0),
  record { pulsebuf_virt = 0; pulsebuf_phys = 0; pulsebuf_size = 0 },
)
