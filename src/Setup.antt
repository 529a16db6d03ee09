-- ===== src/Setup.antt =====
-- What a probe, a removal and a module's init and exit do with the resources that they hold: the
-- calls that acquire and release them, newest first, among the other calls that they make.
pub mod Unwinding
mod Tests
use kernel_module_glowforge.Base.{
  ℕ, Bool, true, false, not, ◌&&◌, ◌||◌, List, [], ◌∷◌, ◌==◌, if◌then◌else◌,
}

-- Calls that acquire nothing, which the order of a removal matters to.
pub data Step : Type 0 where
  attach_pool release_pool epit_stop set_callback clear_callback tasklet_kill : Step
  make_safe power_off cancel_timers cancel_heater_timer write_initial_values : Step

-- Resources are numbered by the component that holds them.
pub data SetupCall : Type 0 where
  acquired released : ℕ → SetupCall
  performed : Step → SetupCall

abbrev pub member : ℕ → List ℕ → Bool
member r [] = false
member r (q ∷ qs) = (q == r) || member r qs

abbrev pub remove : ℕ → List ℕ → List ℕ
remove r [] = []
remove r (q ∷ qs) = if q == r then qs else q ∷ remove r qs

-- The resources held after some calls, the newest first.
abbrev pub holding : List SetupCall → List ℕ
holding [] = []
holding (acquired r ∷ older) = r ∷ holding older
holding (released r ∷ older) = remove r (holding older)
holding (performed s ∷ older) = holding older

-- No resource is acquired while it is held, and none is released while it is not.
abbrev pub is_proper : List SetupCall → Bool
is_proper [] = true
is_proper (acquired r ∷ older) = not (member r (holding older)) && is_proper older
is_proper (released r ∷ older) = member r (holding older) && is_proper older
is_proper (performed s ∷ older) = is_proper older

abbrev pub all_held : List ℕ → List ℕ → Bool
all_held [] held = true
all_held (r ∷ rs) held = member r held && all_held rs held

-- At every moment at which the first resource was held, the others were.
abbrev pub held_within : ℕ → List ℕ → List SetupCall → Bool
held_within r others [] = true
held_within r others (c ∷ older) =
    (not (member r (holding (c ∷ older))) || all_held others (holding (c ∷ older)))
    && held_within r others older
