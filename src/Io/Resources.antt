-- ===== src/Io/Resources.antt =====
-- Requesting and releasing a component's GPIO lines and PWM channels (src/io.c).
use kernel_module_glowforge.Base.{
  ℕ, zero, suc, ◌+◌, ◌*◌, ◌/◌, ◌%◌, ◌^◌, Bool, true, false, not, Option, none, some, List, [], ◌∷◌,
  ◌++◌, ◌==◌, if◌then◌else◌,
}
use kernel_module_glowforge.Kernel.{Ret, ok, fail, is_ok, of_status, Errno}

-- What is done to a GPIO.
pub data GpioCall : Type 0 where
  gpio_request gpio_free : ℕ → GpioCall

-- What the kernel answers for one pin: no definition in the device tree, or a GPIO, whose request is
-- refused or granted.
pub data PinAnswer : Type 0 where
  pin_missing : Errno → PinAnswer
  pin_refused : ℕ → Errno → PinAnswer
  pin_granted : ℕ → PinAnswer

-- The array of GPIO numbers, where `none` is a negative number, and the calls, newest first.
pub record Gpios : Type 0 where
  pub numbers : List (Option ℕ)
  pub calls : List GpioCall

-- `io_release_gpios`
unfoldable pub free_calls : List (Option ℕ) → List GpioCall → List GpioCall
free_calls [] older = older
free_calls (none ∷ gpios) older = free_calls gpios older
free_calls (some n ∷ gpios) older = free_calls gpios (gpio_free n ∷ older)

unfoldable pub released_numbers : List (Option ℕ) → List (Option ℕ)
released_numbers [] = []
released_numbers (_ ∷ gpios) = none ∷ released_numbers gpios

unfoldable pub io_release_gpios : Gpios → Gpios
unfolding free_calls released_numbers
io_release_gpios g = record {
  numbers = released_numbers g.numbers;
  calls = free_calls g.numbers g.calls;
}

-- The two loops of `io_init_gpios`: each goes through all pins, and keeps the last error.
unfoldable pub lookup_error : Ret → List PinAnswer → Ret
lookup_error err [] = err
lookup_error err (pin_missing e ∷ pins) = lookup_error (fail e) pins
lookup_error err (_ ∷ pins) = lookup_error err pins

unfoldable pub looked_up : List PinAnswer → List (Option ℕ)
looked_up [] = []
looked_up (pin_missing e ∷ pins) = none ∷ looked_up pins
looked_up (pin_refused n e ∷ pins) = some n ∷ looked_up pins
looked_up (pin_granted n ∷ pins) = some n ∷ looked_up pins

unfoldable pub request_each : Ret → List PinAnswer → Gpios → Ret × Gpios
request_each err [] g = (err, g)
request_each err (pin_granted n ∷ pins) g =
    request_each err pins
      (record { numbers = g.numbers ++ (some n ∷ []); calls = gpio_request n ∷ g.calls })
request_each err (pin_refused n e ∷ pins) g =
    request_each (fail e) pins (record g { numbers = g.numbers ++ (none ∷ []) })
request_each err (pin_missing e ∷ pins) g =
    request_each (fail e) pins (record g { numbers = g.numbers ++ (none ∷ []) })

-- `io_init_gpios`
unfoldable pub io_init_gpios : List PinAnswer → Ret × Gpios
unfolding lookup_error looked_up request_each io_release_gpios
io_init_gpios pins =
    let missing = lookup_error ok pins in
    let (err, g) = request_each ok pins (record { numbers = []; calls = [] }) in
    if not (is_ok missing)
    then (missing, record { numbers = looked_up pins; calls = [] })
    else if is_ok err
    then (ok, g)
    else (err, io_release_gpios g)

-- What takes effect on a PWM channel, by its index; a configuration has a duty and a period, in ns.
pub data PwmCall : Type 0 where
  pwm_get pwm_put pwm_enable pwm_disable : ℕ → PwmCall
  pwm_config : ℕ → ℕ → ℕ → PwmCall

-- A channel's period, and the answers to getting, configuring and enabling it.
pub record PwmAnswer : Type 0 where
  pub period : ℕ
  pub is_found : Bool
  pub config_status : ℕ
  pub enable_status : ℕ

-- `io_release_pwms`: the `n` channels from `i` on, which have a device.
unfoldable pub release_from : ℕ → ℕ → List PwmCall → List PwmCall
release_from i zero older = older
release_from i (suc n) older = release_from (suc i) n (pwm_put i ∷ pwm_disable i ∷ older)

unfoldable pub io_release_pwms : ℕ → List PwmCall → List PwmCall
unfolding release_from
io_release_pwms n older = release_from 0 n older

-- The first loop of `io_init_pwms`, from channel `i` on: the answer is the number of channels got.
unfoldable pub get_each : ℕ → List PwmAnswer → List PwmCall → Bool × ℕ × List PwmCall
get_each i [] older = (true, i, older)
get_each i (a ∷ channels) older =
    let rest = get_each (suc i) channels (pwm_get i ∷ older) in
    if a.period == 0 then (false, i, older) else if not a.is_found then (false, i, older) else rest

-- The second loop: duty 0, and on.
unfoldable pub enable_each : ℕ → List PwmAnswer → List PwmCall → Ret × List PwmCall
enable_each i [] older = (ok, older)
enable_each i (a ∷ channels) older =
    let configured = pwm_config i 0 a.period ∷ older in
    let rest = enable_each (suc i) channels (pwm_enable i ∷ configured) in
    if not (a.config_status == 0)
    then (of_status a.config_status, older)
    else if not (a.enable_status == 0)
    then (of_status a.enable_status, configured)
    else rest

-- `io_init_pwms`: a channel that cannot be got is the error -1, `EPERM`.
unfoldable pub io_init_pwms : List PwmAnswer → Ret × List PwmCall
unfolding get_each enable_each io_release_pwms
io_init_pwms channels =
    let (got, n, c1) = get_each 0 channels [] in
    let (err, c2) = enable_each 0 channels c1 in
    if not got
    then (fail Errno.eperm, io_release_pwms n c1)
    else if is_ok err
    then (ok, c2)
    else (err, io_release_pwms n c2)

-- `io_pwm_set_duty_cycle`: the duty in ns, of a 16-bit fraction.
unfoldable pub duty_ns : ℕ → ℕ → ℕ
duty_ns period_ns duty = if duty == 0 then 0 else period_ns * (duty + 1) % 2 ^ 32 / 2 ^ 16
