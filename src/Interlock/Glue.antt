-- ===== src/Interlock/Glue.antt =====
-- The input-handler glue: what connecting and disconnecting a switch device leaves behind.
use kernel_module_glowforge.Base.{◌≡◌, ◌⊎◌, Bool, true, List, [], ◌∷◌, ◌++◌, arith}
use kernel_module_glowforge.Kernel.{ok, is_ok}
use kernel_module_glowforge.Interlock.{
  Interlock, InputCall, alloc_handle, free_handle, register_handle, unregister_handle, open_device,
  close_device, Connection, connect, disconnect, attach, detach,
}

-- Which of the three resources of a device are held after some calls, newest first: the handle's
-- memory, its registration, and the open device.
pub record Held : Type 0 where
  pub memory : Bool
  pub registered : Bool
  pub opened : Bool

abbrev pub nothing_held : Held
nothing_held = record { memory = Bool.false; registered = Bool.false; opened = Bool.false }

abbrev pub held : List InputCall → Held
held [] = nothing_held
held (alloc_handle ∷ older) = record (held older) { memory = true }
held (free_handle ∷ older) = record (held older) { memory = Bool.false }
held (register_handle ∷ older) = record (held older) { registered = true }
held (unregister_handle ∷ older) = record (held older) { registered = Bool.false }
held (open_device ∷ older) = record (held older) { opened = true }
held (close_device ∷ older) = record (held older) { opened = Bool.false }

-- A device that cannot be connected leaves the interlock as it was and nothing held; one that is
-- connected is attached with the reading of its switch bit, with its three resources held, which
-- a disconnect then gives back while it detaches the device.
pub connect_lem :
    (c : Connection) (il : Interlock)
    → let r = connect c il in
      ((r.ret ≡ ok)
        × (r.interlock ≡ attach il c.sw_bit)
        × (held r.calls ≡ record { memory = true; registered = true; opened = true })
        × (held ((disconnect r.interlock).1 ++ r.calls) ≡ nothing_held)
        × ((disconnect r.interlock).0 ≡ detach r.interlock))
      ⊎ ((is_ok r.ret ≡ Bool.false) × (r.interlock ≡ il) × (held r.calls ≡ nothing_held))
unfolding connect disconnect
connect_lem c il = ground arith
