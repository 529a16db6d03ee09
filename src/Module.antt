-- ===== src/Module.antt =====
-- The module's init and exit (src/glowforge.c).
use kernel_module_glowforge.Base.{ℕ, Bool, not, List, [], ◌∷◌, ◌==◌, if◌then◌else◌}
use kernel_module_glowforge.Kernel.{Ret, ok, fail, of_status, Errno}
use kernel_module_glowforge.Setup.{SetupCall, acquired, released}

abbrev pub glowforge_kobj : ℕ
glowforge_kobj = 0

abbrev pub pic_driver : ℕ
pic_driver = 1

abbrev pub head_driver : ℕ
head_driver = 2

abbrev pub thermal_driver : ℕ
thermal_driver = 3

abbrev pub cnc_driver : ℕ
cnc_driver = 4

pub record Answers : Type 0 where
  pub kobj_created : Bool
  pub pic_status : ℕ
  pub head_status : ℕ
  pub thermal_status : ℕ
  pub cnc_status : ℕ

-- The labels of `glowforge_init`, each falling through to the next.
abbrev pub failed_pic_init : List SetupCall → List SetupCall
failed_pic_init cs = released glowforge_kobj ∷ cs

abbrev pub failed_head_init : List SetupCall → List SetupCall
failed_head_init cs = failed_pic_init (released pic_driver ∷ cs)

abbrev pub failed_thermal_init : List SetupCall → List SetupCall
failed_thermal_init cs = failed_head_init (released head_driver ∷ cs)

abbrev pub failed_cnc_init : List SetupCall → List SetupCall
failed_cnc_init cs = failed_thermal_init (released thermal_driver ∷ cs)

-- `glowforge_init`
unfoldable pub glowforge_init : Answers → Ret × List SetupCall
glowforge_init a =
    let c1 = acquired glowforge_kobj ∷ [] in
    let c2 = acquired pic_driver ∷ c1 in
    let c3 = acquired head_driver ∷ c2 in
    let c4 = acquired thermal_driver ∷ c3 in
    if not a.kobj_created
    then (fail Errno.enomem, [])
    else if not (a.pic_status == 0)
    then (of_status a.pic_status, failed_pic_init c1)
    else if not (a.head_status == 0)
    then (of_status a.head_status, failed_head_init c2)
    else if not (a.thermal_status == 0)
    then (of_status a.thermal_status, failed_thermal_init c3)
    else if not (a.cnc_status == 0)
    then (of_status a.cnc_status, failed_cnc_init c4)
    else (ok, acquired cnc_driver ∷ c4)

-- `glowforge_exit`
unfoldable pub glowforge_exit : List SetupCall → List SetupCall
glowforge_exit cs =
    released glowforge_kobj
    ∷ released pic_driver
    ∷ released head_driver
    ∷ released thermal_driver
    ∷ released cnc_driver
    ∷ cs
