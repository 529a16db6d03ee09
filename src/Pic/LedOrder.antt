-- ===== src/Pic/LedOrder.antt =====
-- The writes of a burst land in the order in which they were requested.
use kernel_module_glowforge.Base.{ℕ, ◌≤◌, ◌≡◌, Bool, List, [], ◌∷◌, ◌++◌, ◌==◌, if◌then◌else◌, All}
use kernel_module_glowforge.Pic.{Reply, pic_first_output_register, pic_last_output_register}
use kernel_module_glowforge.Pic.Chip.{Chip, exchange_all}
use kernel_module_glowforge.Pic.Leds.{PicLedWork, pic_led_set, pic_led_set_work}

-- A request for a brightness, with what the kernel answers, or one piece of work that is done, with
-- the reply of the bus.
pub data LedStep : Type 0 where
  requests : Bool → Bool → ℕ → ℕ → LedStep
  works : ℕ → Reply → LedStep

-- The registers after the work.
abbrev pub all_set : List PicLedWork → (ℕ → ℕ) → ℕ → ℕ
all_set [] f q = f q
all_set (w ∷ ws) f q = all_set ws (λ p. if p == w.reg then w.value else f p) q

-- A request for an output register, or work that the bus carries out without an error
abbrev pub IsLed : LedStep → Type 0
IsLed (requests has_queue allocated reg brightness) =
    (pic_first_output_register ≤ reg) × (reg ≤ pic_last_output_register)
IsLed (works stale reply) = reply.status ≡ 0

abbrev pub ForLeds : List PicLedWork → Type 0
ForLeds ws = All (λ w. (pic_first_output_register ≤ w.reg) × (w.reg ≤ pic_last_output_register)) ws

module _ (chip : Chip) where
  pub record Leds : Type 0 where
    pub queue : List PicLedWork
    pub state : chip.State

  -- A piece of work is done; a transfer that fails writes nothing, and the work is gone.
  unfoldable pub work_step : ℕ → Reply → List PicLedWork → chip.State → Leds
  unfolding pic_led_set_work
  work_step stale reply [] st = record { queue = []; state = st }
  work_step stale reply (w ∷ rest) st = record {
    queue = rest;
    state =
        if reply.status == 0
        then (exchange_all chip (pic_led_set_work stale reply w).txbuf st).1
        else st;
  }

  unfoldable pub led_step : LedStep → Leds → Leds
  unfolding pic_led_set work_step
  led_step (requests has_queue allocated reg brightness) s = record s {
    queue = pic_led_set has_queue allocated reg brightness s.queue;
  }
  led_step (works stale reply) s = work_step stale reply s.queue s.state

  unfoldable pub led_steps : List LedStep → Leds → Leds
  led_steps [] s = s
  led_steps (a ∷ rest) s = led_steps rest (led_step a s)

  -- The work that requests queue, in their order.
  abbrev pub queued : LedStep → List PicLedWork
  queued (requests has_queue allocated reg brightness) =
      pic_led_set has_queue allocated reg brightness []
  queued (works stale reply) = []

  abbrev pub all_queued : List LedStep → List PicLedWork
  all_queued [] = []
  all_queued (a ∷ rest) = queued a ++ all_queued rest
