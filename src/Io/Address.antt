-- ===== src/Io/Address.antt =====
-- The register address of the GPIO bank that a set of pins is written through (`io_base_address`,
-- src/io.c). The pins are their GPIO numbers, each with whether the set has it.
use kernel_module_glowforge.Base.{
  ℕ, ◌+◌, ◌-◌, ◌*◌, ◌/◌, ◌%◌, ◌<◌, ◌≡◌, ◌⊎◌, inl, inr, Bool, true, false, List, [], ◌∷◌, ltb,
  if◌then◌else◌, refl, All, ap, ◌∙◌, ◌^◌, arith,
}

-- `GPIO_PIN_NUMBER`, `GPIO_BANK_FROM_PIN_NUMBER`, `GPIO_BASE_ADDRESS`, `PIN_FROM_GPIO`
abbrev pub gpio_pin_number : ℕ → ℕ → ℕ
gpio_pin_number bank pin = (bank - 1) * 32 + pin

abbrev pub gpio_bank_from_pin_number : ℕ → ℕ
gpio_bank_from_pin_number gpio = gpio / 32 + 1

abbrev pub gpio_base_address : ℕ → ℕ
gpio_base_address bank = 0x209C000 + (bank - 1) * 0x4000

abbrev pub pin_from_gpio : ℕ → ℕ
pin_from_gpio gpio = gpio % 32

abbrev pub address_of : ℕ → ℕ
address_of gpio = gpio_base_address (gpio_bank_from_pin_number gpio)

-- The loop of `io_base_address`, from the least address so far.
unfoldable pub least_address : List (ℕ × Bool) → ℕ → ℕ
least_address [] min_addr = min_addr
least_address ((gpio, in_set) ∷ rest) min_addr =
    let addr = address_of gpio in
    least_address rest (if in_set then if ltb addr min_addr then addr else min_addr else min_addr)

unfoldable pub io_base_address : List (ℕ × Bool) → ℕ
unfolding least_address
io_base_address pins = least_address pins 0xFFFFFFFF

-- A pin that the set has is in the bank.
abbrev pub InBank : ℕ → ℕ × Bool → Type 0
InBank bank (gpio, in_set) = in_set ≡ true → gpio_bank_from_pin_number gpio ≡ bank

abbrev pub is_used : List (ℕ × Bool) → Bool
is_used [] = false
is_used ((gpio, in_set) ∷ rest) = if in_set then true else is_used rest

-- A bank and a pin of it are read off the number that they make.
pub bank_of_number :
    (bank pin : ℕ)
    → 0 < bank
    → pin < 32
    → (gpio_bank_from_pin_number (gpio_pin_number bank pin) ≡ bank)
      × (pin_from_gpio (gpio_pin_number bank pin) ≡ pin)
bank_of_number bank pin b p = omega arith

picks :
    (addr base min_addr : ℕ)
    → addr ≡ base
    → (min_addr ≡ base) ⊎ (base < min_addr)
    → (if ltb addr min_addr then addr else min_addr) ≡ base
picks addr base min_addr e m = ground arith

either : (b : Bool) (base picked : ℕ) → picked ≡ base → (if b then base else picked) ≡ base
either true base picked e = refl
either false base picked e = e

least-InBank :
    (bank : ℕ) (pins : List (ℕ × Bool)) (min_addr : ℕ)
    → All (InBank bank) pins
    → (min_addr ≡ gpio_base_address bank) ⊎ (gpio_base_address bank < min_addr)
    → least_address pins min_addr ≡ (if is_used pins then gpio_base_address bank else min_addr)
unfolding least_address
least-InBank bank [] min_addr a m = refl
least-InBank bank ((gpio, true) ∷ rest) min_addr a m =
    let base = gpio_base_address bank in
    let addr = address_of gpio in
    let picked = if ltb addr min_addr then addr else min_addr in
    let e = picks addr base min_addr (ap gpio_base_address (a.0 refl)) m in
    least-InBank bank rest picked a.1 (inl e) ∙ either (is_used rest) base picked e
least-InBank bank ((gpio, false) ∷ rest) min_addr a m = least-InBank bank rest min_addr a.1 m

-- The address that the engine is given is that of the one bank, where all pins of the set are in it
-- and the set has a pin of the list; where it has none, the address is all ones. The bank's
-- number is below 2 ^ 16.
pub io_base_address_lem :
    (bank : ℕ) (pins : List (ℕ × Bool))
    → bank < 2 ^ 16
    → All (InBank bank) pins
    → io_base_address pins ≡ (if is_used pins then gpio_base_address bank else 0xFFFFFFFF)
unfolding io_base_address
io_base_address_lem bank pins l a = least-InBank bank pins 0xFFFFFFFF a (inr (omega arith))
