-- ===== src/Io/Duty.antt =====
-- The PWM channels: what an init leaves, and the duty cycle.
use kernel_module_glowforge.Base.{
  ℕ, zero, suc, ◌+◌, ◌*◌, ◌≤◌, ◌<◌, ◌≡◌, ◌⊎◌, true, false, ◌&&◌, List, [], ◌∷◌, ◌==◌, ltb, leb,
  if◌then◌else◌, arith,
}
use native.Mathlib.Nat.{mul-le-mul_left}
use kernel_module_glowforge.Kernel.{ok, is_ok}
use kernel_module_glowforge.Io.Resources.{
  PwmCall, pwm_get, pwm_put, pwm_enable, pwm_disable, pwm_config, PwmAnswer, release_from,
  io_release_pwms, get_each, enable_each, io_init_pwms, duty_ns,
}

-- How often a channel was got, was put, and was enabled.
abbrev pub gets : ℕ → List PwmCall → ℕ
gets j [] = 0
gets j (pwm_get i ∷ older) = if i == j then suc (gets j older) else gets j older
gets j (_ ∷ older) = gets j older

abbrev pub puts : ℕ → List PwmCall → ℕ
puts j [] = 0
puts j (pwm_put i ∷ older) = if i == j then suc (puts j older) else puts j older
puts j (_ ∷ older) = puts j older

abbrev pub enables : ℕ → List PwmCall → ℕ
enables j [] = 0
enables j (pwm_enable i ∷ older) = if i == j then suc (enables j older) else enables j older
enables j (_ ∷ older) = enables j older

abbrev pub length : List PwmAnswer → ℕ
length [] = 0
length (a ∷ channels) = suc (length channels)

-- 1 for a channel from `i` on, up to `n`.
abbrev pub between : ℕ → ℕ → ℕ → ℕ
between i n j = if leb i j && ltb j n then 1 else 0

got :
    (j i : ℕ) (channels : List PwmAnswer) (older : List PwmCall)
    → let (all, n, cs) = get_each i channels older in
      (i ≤ n)
      × (gets j cs ≡ gets j older + between i n j)
      × (puts j cs ≡ puts j older)
      × (enables j cs ≡ enables j older)
      × (all ≡ true → n ≡ i + length channels)
unfolding get_each
got j i [] older = ground arith
got j i (a ∷ channels) older = let h = got j (suc i) channels (pwm_get i ∷ older) in ground arith

enabled :
    (j i : ℕ) (channels : List PwmAnswer) (older : List PwmCall)
    → let (r, cs) = enable_each i channels older in
      (gets j cs ≡ gets j older)
      × (puts j cs ≡ puts j older)
      × (is_ok r ≡ true
          → (r ≡ ok) × (enables j cs ≡ enables j older + between i (i + length channels) j))
unfolding enable_each
enabled j i [] older = ground arith
enabled j i (a ∷ channels) older =
    let h = enabled j (suc i) channels (pwm_enable i ∷ pwm_config i 0 a.period ∷ older) in
    ground arith

put_back :
    (j i n : ℕ) (older : List PwmCall)
    → (gets j (release_from i n older) ≡ gets j older)
      × (puts j (release_from i n older) ≡ puts j older + between i (i + n) j)
unfolding release_from
put_back j i zero older = ground arith
put_back j i (suc n) older =
    let h = put_back j (suc i) n (pwm_put i ∷ pwm_disable i ∷ older) in ground arith

-- An init of PWM channels that succeeds got and enabled every channel once; one that fails put every
-- channel that it got.
pub io_init_pwms_lem :
    (j : ℕ) (channels : List PwmAnswer)
    → let (ret, cs) = io_init_pwms channels in
      ((ret ≡ ok)
        × (gets j cs ≡ between 0 (length channels) j)
        × (enables j cs ≡ between 0 (length channels) j)
        × (puts j cs ≡ 0))
      ⊎ ((is_ok ret ≡ false) × (gets j cs ≡ puts j cs))
unfolding io_init_pwms io_release_pwms
io_init_pwms_lem j channels =
    let (all, n, c1) = get_each 0 channels [] in
    let c2 = (enable_each 0 channels c1).1 in
    let h = got j 0 channels [] in
    let e = enabled j 0 channels c1 in
    let p1 = put_back j 0 n c1 in let p2 = put_back j 0 n c2 in ground arith

-- For a period below 65536 ns no 16-bit duty overflows the 32-bit product: the duty in ns is at most
-- the period, is the whole period for the largest fraction, and does not fall as the fraction grows.
pub duty_ns_lem :
    (period d d' : ℕ)
    → period < 65536
    → d ≤ d'
    → d' < 65536
    → (duty_ns period d ≤ duty_ns period d')
      × (duty_ns period d' ≤ period)
      × (duty_ns period 65535 ≡ period)
unfolding duty_ns
duty_ns_lem period d d' p l b =
    let lower : period * (d + 1) ≤ period * (d' + 1) = mul-le-mul_left period (omega arith) in
    let upper : period * (d' + 1) ≤ period * 65536 = mul-le-mul_left period (omega arith) in
    ground arith
