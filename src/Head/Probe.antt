-- ===== src/Head/Probe.antt =====
-- The resources of the head driver, `head_probe` and `head_remove` (src/head.c).
use kernel_module_glowforge.Base.{ℕ, Bool, not, List, [], ◌∷◌, ◌==◌, if◌then◌else◌}
use kernel_module_glowforge.Kernel.{Ret, ok, fail, is_ok, of_status, Errno}
use kernel_module_glowforge.Setup.{SetupCall, acquired, released, performed, make_safe}
use kernel_module_glowforge.Head.{Reading, unread, value_of}

abbrev pub head_attr_group : ℕ
head_attr_group = 0

abbrev pub head_link : ℕ
head_link = 1

abbrev pub dms_notifier : ℕ
dms_notifier = 2

abbrev pub head_magic_number : ℕ
head_magic_number = 0x044c

-- The answers: `settings` are those to the writes that configure the head, in order.
pub record Answers : Type 0 where
  pub allocated : Bool
  pub identity : Reading
  pub settings : List ℕ
  pub group_status : ℕ
  pub link_status : ℕ

-- The head is there.
abbrev pub identify : Reading → Ret
identify (unread e) = fail e
identify (value_of v) = if v == head_magic_number then ok else fail Errno.enodev

-- The writes that configure the head, up to one that fails
abbrev pub configure : List ℕ → Ret
configure [] = ok
configure (s ∷ ss) = if s == 0 then configure ss else fail (Errno.os s)

-- `head_probe`: `failed_create_group` and `failed_head_init` give nothing back.
unfoldable pub head_probe : Answers → Ret × List SetupCall
head_probe a =
    let c1 = acquired head_attr_group ∷ [] in
    let id = identify a.identity in
    let configured = configure a.settings in
    if not a.allocated
    then (fail Errno.enomem, [])
    else if not (is_ok id)
    then (id, [])
    else if not (is_ok configured)
    then (configured, [])
    else if not (a.group_status == 0)
    then (of_status a.group_status, [])
    else if not (a.link_status == 0)
    then (of_status a.link_status, released head_attr_group ∷ c1)
    else (ok, acquired dms_notifier ∷ acquired head_link ∷ c1)

-- `head_remove`
unfoldable pub head_remove : List SetupCall → List SetupCall
head_remove cs =
    released head_attr_group ∷ released head_link ∷ released dms_notifier ∷ performed make_safe ∷ cs
