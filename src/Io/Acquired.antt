-- ===== src/Io/Acquired.antt =====
-- What an init of GPIO lines or PWM channels leaves held.
use kernel_module_glowforge.Base.{
  ℕ, suc, ◌+◌, ◌≡◌, ◌⊎◌, refl, false, Option, none, some, List, [], ◌∷◌, ◌++◌, ◌==◌, if◌then◌else◌,
  arith,
}
use kernel_module_glowforge.Kernel.{Ret, ok, fail, is_ok}
use kernel_module_glowforge.Io.Resources.{
  GpioCall, gpio_request, gpio_free, PinAnswer, pin_missing, pin_refused, pin_granted, Gpios,
  free_calls, released_numbers, io_release_gpios, request_each, io_init_gpios,
}

-- How often a GPIO was requested, was freed, and stands in the array.
abbrev pub requested : ℕ → List GpioCall → ℕ
requested n [] = 0
requested n (gpio_request m ∷ older) = if m == n then suc (requested n older) else requested n older
requested n (gpio_free m ∷ older) = requested n older

abbrev pub freed : ℕ → List GpioCall → ℕ
freed n [] = 0
freed n (gpio_free m ∷ older) = if m == n then suc (freed n older) else freed n older
freed n (gpio_request m ∷ older) = freed n older

abbrev pub in_array : ℕ → List (Option ℕ) → ℕ
in_array n [] = 0
in_array n (none ∷ gpios) = in_array n gpios
in_array n (some m ∷ gpios) = if m == n then suc (in_array n gpios) else in_array n gpios

-- A GPIO is held as often as it stands in the array.
abbrev pub IsHeld : ℕ → Gpios → Type 0
IsHeld n g = requested n g.calls ≡ freed n g.calls + in_array n g.numbers

in_array-append :
    (n : ℕ) (gpios : List (Option ℕ)) (g : Option ℕ)
    → in_array n (gpios ++ (g ∷ [])) ≡ in_array n gpios + in_array n (g ∷ [])
in_array-append n [] g = ground arith
in_array-append n (none ∷ gpios) g = in_array-append n gpios g
in_array-append n (some p ∷ gpios) g = let h = in_array-append n gpios g in ground arith

free_counts :
    (n : ℕ) (gpios : List (Option ℕ)) (older : List GpioCall)
    → (requested n (free_calls gpios older) ≡ requested n older)
      × (freed n (free_calls gpios older) ≡ freed n older + in_array n gpios)
      × (in_array n (released_numbers gpios) ≡ 0)
unfolding free_calls released_numbers
free_counts n [] older = ground arith
free_counts n (none ∷ gpios) older = let h = free_counts n gpios older in ground arith
free_counts n (some m ∷ gpios) older =
    let h = free_counts n gpios (gpio_free m ∷ older) in ground arith

free_again :
    (gpios : List (Option ℕ)) (older : List GpioCall)
    → free_calls (released_numbers gpios) older ≡ older
unfolding free_calls released_numbers
free_again [] older = refl
free_again (g ∷ gpios) older = free_again gpios older

request-IsHeld :
    (n : ℕ) (err : Ret) (pins : List PinAnswer) (g : Gpios)
    → IsHeld n g
    → IsHeld n (request_each err pins g).1
unfolding request_each
request-IsHeld n err [] g h = h
request-IsHeld n err (pin_granted m ∷ pins) g h =
    request-IsHeld n err pins _ (let a = in_array-append n g.numbers (some m) in ground arith)
request-IsHeld n err (pin_refused m e ∷ pins) g h =
    request-IsHeld n (fail e) pins _ (let a = in_array-append n g.numbers none in ground arith)
request-IsHeld n err (pin_missing e ∷ pins) g h =
    request-IsHeld n (fail e) pins _ (let a = in_array-append n g.numbers none in ground arith)

-- An init of GPIO lines that succeeds holds every GPIO as often as it stands in the array; one that
-- fails, whatever pin it fails at, has given back every GPIO that it was granted. A release gives
-- back what the array holds, and a second release does nothing.
pub io_init_gpios_lem :
    (n : ℕ) (pins : List PinAnswer)
    → let (ret, g) = io_init_gpios pins in
      (((ret ≡ ok) × IsHeld n g) ⊎ ((is_ok ret ≡ false) × (requested n g.calls ≡ freed n g.calls)))
      × (IsHeld n g → requested n (io_release_gpios g).calls ≡ freed n (io_release_gpios g).calls)
      × (io_release_gpios (io_release_gpios g)).calls ≡ (io_release_gpios g).calls
unfolding io_init_gpios io_release_gpios
io_init_gpios_lem n pins =
    let r = (request_each ok pins (record { numbers = []; calls = [] })).1 in
    let g = (io_init_gpios pins).1 in
    let held = request-IsHeld n ok pins (record { numbers = []; calls = [] }) refl in
    let failed = free_counts n r.numbers r.calls in
    let later = free_counts n g.numbers g.calls in
    (ground arith, ground arith, free_again g.numbers _)
