-- ===== src/Deadman.antt =====
-- The dead man's switch across the drivers (src/notifiers.h): the pulse device's close (src/cnc_api.c)
-- calls a chain of listeners, the handlers of the PIC driver (src/pic.c), the head driver (src/head.c)
-- and the thermal driver (src/thermal.c), each of which makes its hardware safe.
pub mod Told
pub mod Safe
mod Tests
use kernel_module_glowforge.Base.{
  ℕ, ◌/◌, ◌%◌, ◌≡◌, Bool, true, false, ◌&&◌, List, [], ◌∷◌, map, if◌then◌else◌,
}
use kernel_module_glowforge.Kernel.{Ret, ok, dms_notify}
use kernel_module_glowforge.Cnc.State.{Cnc, is_running}
use kernel_module_glowforge.Cnc.Motion.{call}
use kernel_module_glowforge.Cnc.Control.{halt}
use kernel_module_glowforge.Cnc.Laser.{set_laser_latch}
use kernel_module_glowforge.Pulsedev.{Pulsedev}
use kernel_module_glowforge.Thermal.{Thermal, make_safe}
use kernel_module_glowforge.Pic.{Reply, pic_make_safe}
use kernel_module_glowforge.Pic.Chip.{Chip, exchange_all}
use kernel_module_glowforge.Head.{head_make_safe}
use kernel_module_glowforge.Head.Chip.{HeadChip, write_all}

-- The kernel's blocking chain of notifiers: a handler gives an answer, and a chain calls its handlers
-- in order, the next one unless an answer has the bit NOTIFY_STOP_MASK (0x8000).
pub record NotifierChain : Type 1 where
  pub call_chain : {S : Type 0} → List (S → ℕ × S) → S → S
  pub end_lem : {S : Type 0} (s : S) → call_chain [] s ≡ s
  pub next_lem :
      {S : Type 0} (h : S → ℕ × S) (hs : List (S → ℕ × S)) (s : S)
      → (h s).0 / 0x8000 % 2 ≡ 0
      → call_chain (h ∷ hs) s ≡ call_chain hs (h s).1
  pub stop_lem :
      {S : Type 0} (h : S → ℕ × S) (hs : List (S → ℕ × S)) (s : S)
      → (h s).0 / 0x8000 % 2 ≡ 1
      → call_chain (h ∷ hs) s ≡ (h s).1

-- What the buses do with the writes of the handlers: whether they carry them out, and what the PIC's
-- buffer held and received.
pub record Buses : Type 0 where
  pub pic_carried : Bool
  pub pic_stale : ℕ
  pub pic_reply : Reply
  pub motor_carried : Bool
  pub laser_carried : Bool
  pub uv_carried : Bool

-- A driver that registers on the chain when it is probed
pub data Listener : Type 0 where
  pic_listener head_listener thermal_listener : Listener

module _ (chip : Chip) (head : HeadChip) where
  -- The drivers with their hardware
  pub record Machine : Type 0 where
    pub pulsedev : Pulsedev
    pub pic_state : chip.State
    pub head_state : head.State
    pub thermal : Thermal

  module _ (b : Buses) where
    -- `pic_dms_handler`, `head_dms_handler`, `thermal_dms_handler`
    unfoldable pub pic_dms_handler : Machine → ℕ × Machine
    pic_dms_handler m =
        let sent = (pic_make_safe b.pic_stale b.pic_reply).txbuf in
        let s = if b.pic_carried then (exchange_all chip sent m.pic_state).1 else m.pic_state in
        (0, record m { pic_state = s })

    unfoldable pub head_dms_handler : Machine → ℕ × Machine
    head_dms_handler m =
        let carried = b.motor_carried ∷ b.laser_carried ∷ b.uv_carried ∷ [] in
        (0, record m { head_state = write_all head head_make_safe carried m.head_state })

    unfoldable pub thermal_dms_handler : Machine → ℕ × Machine
    thermal_dms_handler m = (0, record m { thermal = make_safe m.thermal })

    abbrev pub handler : Listener → Machine → ℕ × Machine
    handler pic_listener m = pic_dms_handler m
    handler head_listener m = head_dms_handler m
    handler thermal_listener m = thermal_dms_handler m

    -- `pulsedev_close`, with the chain that it calls; `listeners` are those on it, in its order.
    -- `between` is what other contexts do to the stepper driver after its state is read, and `during`
    -- what they do to it while the chain is called, of which the handlers see nothing, and up to the
    -- lock of the laser latch.
    unfoldable pub close :
        NotifierChain → List Listener → (Cnc → Cnc) → (Cnc → Cnc) → Machine → Ret × Machine
    unfolding halt set_laser_latch
    close chain listeners between during m =
        let p = m.pulsedev in
        let c = between p.cnc in
        let tripped = p.deadman_switch_active && is_running p.cnc.state in
        let halted = record p { cnc = call dms_notify (halt false c).1 } in
        let m1 =
          if tripped
          then chain.call_chain (map handler listeners) (record m { pulsedev = halted })
          else record m { pulsedev = record p { cnc = c } } in
        let q = m1.pulsedev in
        let closed = record q {
          cnc = (set_laser_latch 1 (during q.cnc)).1;
          pulsedev_in_use = false;
        } in
        (ok, record m1 { pulsedev = closed })
