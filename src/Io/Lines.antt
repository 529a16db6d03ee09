-- ===== src/Io/Lines.antt =====
-- What a list of calls leaves on a GPIO line: its direction, and the level of an output.
use kernel_module_glowforge.Base.{ℕ, Option, none, some, List, [], ◌∷◌, ◌==◌, if◌then◌else◌}
use kernel_module_glowforge.Kernel.{
  Call, gpio_direction_output, gpio_direction_input, gpio_set_value,
}

pub data Drive : Type 0 where
  input : Drive
  output : ℕ → Drive

-- A level written to a line takes effect where the line is an output.
abbrev pub with_level : ℕ → Option Drive → Option Drive
with_level v none = none
with_level v (some input) = some input
with_level v (some (output u)) = some (output v)

-- `none`: the calls do not set the line's direction.
abbrev pub drive : ℕ → List Call → Option Drive
drive p [] = none
drive p (gpio_direction_output q v ∷ older) = if q == p then some (output v) else drive p older
drive p (gpio_direction_input q ∷ older) = if q == p then some input else drive p older
drive p (gpio_set_value q v ∷ older) =
    let before = drive p older in if q == p then with_level v before else before
drive p (_ ∷ older) = drive p older

-- The newest level that the calls gave the line, a released line aside.
abbrev pub level : ℕ → List Call → Option ℕ
level p [] = none
level p (gpio_direction_output q v ∷ older) = if q == p then some v else level p older
level p (gpio_set_value q v ∷ older) = if q == p then some v else level p older
level p (_ ∷ older) = level p older
