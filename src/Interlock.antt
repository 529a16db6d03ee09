-- ===== src/Interlock.antt =====
-- The remote-interlock latch drive (src/cnc_interlock.c, src/cnc_interlock.h): the policy, and the
-- input-handler glue that feeds it. `drive` is the caller's callback: the levels handed to it are
-- kept in `driven`, newest first. The locks are left out: each function here runs under them.
pub mod Policy
pub mod History
pub mod Line
mod Glue
mod Tests
use kernel_module_glowforge.Base.{
  ℕ, suc, ◌-◌, Bool, true, false, not, ◌&&◌, ◌||◌, Option, none, some, List, [], ◌∷◌, ltb, ◌==◌,
  if◌then◌else◌,
}
use kernel_module_glowforge.Kernel.{Ret, ok, fail, Errno, of_status}

-- The switch code of the interlock loop.
abbrev pub sw_code : ℕ
sw_code = 5

-- `level` is the level last handed to `drive`; `none` is the initial -1.
pub record Interlock : Type 0 where
  pub attached : ℕ
  pub loop_open : Bool
  pub level : Option ℕ
  pub driven : List ℕ

-- The level that the policy wants on the line: 1 sets the latch, which blocks emission.
pub wanted_level : Interlock → ℕ
wanted_level il = if ltb 0 il.attached && not il.loop_open then 0 else 1

abbrev pub is_level : ℕ → Option ℕ → Bool
is_level n none = false
is_level n (some m) = n == m

pub apply : Interlock → Interlock
unfolding wanted_level
apply il =
    let l = wanted_level il in
    if is_level l il.level then il else record il { level = some l; driven = l ∷ il.driven }

-- Whatever the object held before is overwritten.
unfoldable pub init : Interlock
unfolding apply
init = apply (record { attached = 0; loop_open = true; level = none; driven = [] })

pub attach : Interlock → Bool → Interlock
unfolding apply
attach il loop_open = apply (record il { attached = suc il.attached; loop_open = loop_open })

pub detach : Interlock → Interlock
unfolding apply
detach il = apply (if ltb 0 il.attached then record il { attached = il.attached - 1 } else il)

-- `ev_sw` is the kernel's event type of switches.
pub event : ℕ → Interlock → ℕ → ℕ → ℕ → Interlock
unfolding apply
event ev_sw il type code value =
    if not (type == ev_sw) || not (code == sw_code)
    then il
    else apply (record il { loop_open = not (value == 0) })

-- The calls of the glue to the input core that took effect; one that failed is not listed.
pub data InputCall : Type 0 where
  alloc_handle free_handle register_handle unregister_handle open_device close_device : InputCall

-- What the input core answers while a device is connected: whether the handle could be allocated,
-- the two status codes, and the switch bit read under the device's event lock.
pub record Connection : Type 0 where
  pub allocated : Bool
  pub register_status : ℕ
  pub open_status : ℕ
  pub sw_bit : Bool

pub record Connected : Type 0 where
  pub ret : Ret
  pub interlock : Interlock
  pub calls : List InputCall

pub connect : Connection → Interlock → Connected
unfolding attach
connect c il =
    if not c.allocated
    then record { ret = fail Errno.enomem; interlock = il; calls = [] }
    else if not (c.register_status == 0)
    then record {
      ret = of_status c.register_status;
      interlock = il;
      calls = free_handle ∷ alloc_handle ∷ [];
    }
    else if not (c.open_status == 0)
    then record {
      ret = of_status c.open_status;
      interlock = il;
      calls = free_handle ∷ unregister_handle ∷ register_handle ∷ alloc_handle ∷ [];
    }
    else record {
      ret = ok;
      interlock = attach il c.sw_bit;
      calls = open_device ∷ register_handle ∷ alloc_handle ∷ [];
    }

pub disconnect : Interlock → Interlock × List InputCall
unfolding detach
disconnect il = (detach il, free_handle ∷ unregister_handle ∷ close_device ∷ [])
