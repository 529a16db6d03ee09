-- ===== src/Io/Tests.antt =====
-- Inits that fail half-way, and the theorems at them.
use kernel_module_glowforge.Base.{◌≤◌, ◌≡◌, ◌⊎◌, refl, true, false, List, [], ◌∷◌, arith}
use kernel_module_glowforge.Kernel.{ok, is_ok, ebusy}
use kernel_module_glowforge.Io.Resources.{
  PinAnswer, pin_refused, pin_granted, io_init_gpios, io_release_gpios, gpio_request, gpio_free,
  PwmAnswer, io_init_pwms, duty_ns,
}
use kernel_module_glowforge.Io.Acquired.{IsHeld, requested, freed, io_init_gpios_lem}
use kernel_module_glowforge.Io.Duty.{
  gets, puts, enables, length, between, io_init_pwms_lem, duty_ns_lem,
}

abbrev second_refused : List PinAnswer
second_refused = pin_granted 17 ∷ pin_refused 18 ebusy ∷ pin_granted 19 ∷ []

all_freed :
    (io_init_gpios second_refused).1.calls
    ≡ gpio_free 19 ∷ gpio_free 17 ∷ gpio_request 19 ∷ gpio_request 17 ∷ []
unfolding io_init_gpios
all_freed = refl

third_pin_fails :
    let (ret, g) = io_init_gpios second_refused in
    (((ret ≡ ok) × IsHeld 17 g) ⊎ ((is_ok ret ≡ false) × (requested 17 g.calls ≡ freed 17 g.calls)))
    × (IsHeld 17 g → requested 17 (io_release_gpios g).calls ≡ freed 17 (io_release_gpios g).calls)
    × ((io_release_gpios (io_release_gpios g)).calls ≡ (io_release_gpios g).calls)
third_pin_fails = io_init_gpios_lem 17 second_refused

-- The second fan cannot be enabled.
abbrev fans : List PwmAnswer
fans =
    record { period = 40000; is_found = true; config_status = 0; enable_status = 0 }
    ∷ record { period = 40000; is_found = true; config_status = 0; enable_status = 22 }
    ∷ []

first_failure :
    let (ret, cs) = io_init_pwms fans in
    ((ret ≡ ok)
      × (gets 1 cs ≡ between 0 (length fans) 1)
      × (enables 1 cs ≡ between 0 (length fans) 1)
      × (puts 1 cs ≡ 0))
    ⊎ ((is_ok ret ≡ false) × (gets 1 cs ≡ puts 1 cs))
first_failure = io_init_pwms_lem 1 fans

half_of_a_period :
    (duty_ns 40000 100 ≤ duty_ns 40000 200)
    × (duty_ns 40000 200 ≤ 40000)
    × (duty_ns 40000 65535 ≡ 40000)
half_of_a_period = duty_ns_lem 40000 100 200 (omega arith) (omega arith) (omega arith)

-- A period of a millisecond would overflow.
overflows : duty_ns 1000000 65535 ≡ 16960
unfolding duty_ns
overflows = refl
