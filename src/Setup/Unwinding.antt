-- ===== src/Setup/Unwinding.antt =====
-- The probes of the thermal, PIC and head drivers, and the module's init: what they leave held.
use kernel_module_glowforge.Base.{◌≡◌, ◌⊎◌, true, false, ℕ, List, [], ◌∷◌, arith}
use kernel_module_glowforge.Kernel.{Ret, ok, is_ok}
use kernel_module_glowforge.Setup.{SetupCall, holding, is_proper}
use kernel_module_glowforge.Thermal
use kernel_module_glowforge.Pic
use kernel_module_glowforge.Head
use kernel_module_glowforge.Module

-- A probe with these calls releases only what it holds, and once each. One that fails holds nothing;
-- one that succeeds holds all its resources, and the removal gives them all back.
abbrev pub Unwinds : List ℕ → Ret → List SetupCall → List SetupCall → Type 0
Unwinds all r cs removed =
    (is_proper cs ≡ true)
    × (((is_ok r ≡ false) × (holding cs ≡ []))
        ⊎ ((r ≡ ok) × (holding cs ≡ all) × (is_proper removed ≡ true) × (holding removed ≡ [])))

thermal-Unwinds :
    (a : Thermal.Probe.Answers) (tachs : Ret)
    → let (r, cs) = Thermal.Probe.thermal_probe_from a tachs in
      Unwinds (6 ∷ 5 ∷ 4 ∷ 3 ∷ 2 ∷ 1 ∷ 0 ∷ []) r cs (Thermal.Probe.thermal_remove cs)
unfolding Thermal.Probe.thermal_probe_from Thermal.Probe.thermal_remove
thermal-Unwinds a tachs = ground arith

pic-Unwinds :
    (a : Pic.Probe.Answers)
    → let (r, cs) = Pic.Probe.pic_probe a in
      Unwinds (8 ∷ 7 ∷ 6 ∷ 5 ∷ 4 ∷ 3 ∷ 2 ∷ 1 ∷ 0 ∷ []) r cs (Pic.Probe.pic_remove cs)
unfolding Pic.Probe.pic_probe Pic.Probe.pic_remove
pic-Unwinds a = ground arith

head-Unwinds :
    (a : Head.Probe.Answers)
    → let (r, cs) = Head.Probe.head_probe a in
      Unwinds (2 ∷ 1 ∷ 0 ∷ []) r cs (Head.Probe.head_remove cs)
unfolding Head.Probe.head_probe Head.Probe.head_remove
head-Unwinds a = ground arith

module-Unwinds :
    (a : Module.Answers)
    → let (r, cs) = Module.glowforge_init a in
      Unwinds (4 ∷ 3 ∷ 2 ∷ 1 ∷ 0 ∷ []) r cs (Module.glowforge_exit cs)
unfolding Module.glowforge_init Module.glowforge_exit
module-Unwinds a = ground arith

-- On every path the probes of the thermal, PIC and head drivers and the module's init release only
-- what they hold; where one fails it holds nothing, and where it succeeds it holds all its resources,
-- which the removal, or the module's exit, gives back, each once.
pub all-Unwinds :
    (t : Thermal.Probe.Answers) (p : Pic.Probe.Answers) (h : Head.Probe.Answers)
    (m : Module.Answers)
    → let (rt, ct) = Thermal.Probe.thermal_probe t in
      let (rp, cp) = Pic.Probe.pic_probe p in
      let (rh, ch) = Head.Probe.head_probe h in
      let (rm, cm) = Module.glowforge_init m in
      Unwinds (6 ∷ 5 ∷ 4 ∷ 3 ∷ 2 ∷ 1 ∷ 0 ∷ []) rt ct (Thermal.Probe.thermal_remove ct)
      × Unwinds (8 ∷ 7 ∷ 6 ∷ 5 ∷ 4 ∷ 3 ∷ 2 ∷ 1 ∷ 0 ∷ []) rp cp (Pic.Probe.pic_remove cp)
      × Unwinds (2 ∷ 1 ∷ 0 ∷ []) rh ch (Head.Probe.head_remove ch)
      × Unwinds (4 ∷ 3 ∷ 2 ∷ 1 ∷ 0 ∷ []) rm cm (Module.glowforge_exit cm)
unfolding Thermal.Probe.thermal_probe
all-Unwinds t p h m = (
  thermal-Unwinds t (Thermal.init_tachs t.tachs).0,
  pic-Unwinds p,
  head-Unwinds h,
  module-Unwinds m,
)
