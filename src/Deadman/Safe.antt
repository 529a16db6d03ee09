-- ===== src/Deadman/Safe.antt =====
-- A tripped dead man's switch makes every driver on the chain safe.
use kernel_module_glowforge.Base.{
  ℕ, ◌≡◌, ◌≢◌, ◌⊎◌, Bool, true, false, Bool-cases, inl, inr, ◌&&◌, ◌||◌, some, List, if◌then◌else◌,
  refl, ◌∙◌, ap, arith,
}
use kernel_module_glowforge.Kernel.{dms_notify}
use kernel_module_glowforge.Cnc.Motion.{call}
use kernel_module_glowforge.Cnc.Control.{halt}
use kernel_module_glowforge.Cnc.Laser.{set_laser_latch}
use kernel_module_glowforge.Pins
use kernel_module_glowforge.Io.{drive, input, level}
use kernel_module_glowforge.Cnc.State.{Cnc, running, is_running}
use kernel_module_glowforge.Pulsedev.{Pulsedev, pulsedev_close, deadman_stop}
use kernel_module_glowforge.Pulsedev.Deadman.{latched_lem, halted_and_left}
use kernel_module_glowforge.Ring.{Kfifo}
use kernel_module_glowforge.Cnc.Event.{Event, steps}
use kernel_module_glowforge.Cnc.Commits.{has_commit}
use kernel_module_glowforge.Thermal.Heater.{IsSafe, callbacks, callbacks-IsSafe}
use kernel_module_glowforge.Pic.Chip.{Chip}
use kernel_module_glowforge.Head.{head_reg_rw_grp, head_reg_msr_laser, head_reg_uv_led}
use kernel_module_glowforge.Head.Chip.{HeadChip, has_bit}
use kernel_module_glowforge.Deadman.Told.{
  is_pic, is_head, is_thermal, any, is_output, told, chain-told, told-pulsedev, told-IsSafe,
  told-reg, told-laser, told-uv, told-motor,
}
use kernel_module_glowforge.Deadman.{NotifierChain, Buses, Listener, Machine, close}

if_true {ℓ} : {A : Type ℓ} (t : Bool) (x y : A) → t ≡ true → (if t then x else y) ≡ x
if_true true x y e = refl
if_true false x y e = cc

module _ (chip : Chip) (head : HeadChip) (b : Buses) where
  -- The machine once the chain was called, by a close of a running driver with the switch armed.
  module _ (chain : NotifierChain) (listeners : List Listener) (between during : Cnc → Cnc)
      (m : Machine chip head) (armed : m.pulsedev.deadman_switch_active ≡ true)
      (runs : m.pulsedev.cnc.state ≡ running) where
    abbrev halted : Machine chip head
    halted = record m {
      pulsedev = record (m.pulsedev) {
        cnc = call dms_notify (halt false (between m.pulsedev.cnc)).1;
      };
    }

    abbrev closed : Pulsedev → Pulsedev
    closed p = record p { cnc = (set_laser_latch 1 (during p.cnc)).1; pulsedev_in_use = false }

    trips : (m.pulsedev.deadman_switch_active && is_running m.pulsedev.cnc.state) ≡ true
    trips = ground arith

    close-told :
        let t = told chip head b listeners halted in
        (close chip head b chain listeners between during m).1
        ≡ record t { pulsedev = closed t.pulsedev }
    unfolding close
    close-told =
        ap (λ (t : Machine chip head). record t { pulsedev = closed t.pulsedev })
          (if_true _ _ _ trips ∙ chain-told chip head b chain listeners halted)

    close-pulsedev :
        (close chip head b chain listeners between during m).1.pulsedev ≡ closed halted.pulsedev
    close-pulsedev =
        ap (λ (t : Machine chip head). t.pulsedev) close-told
        ∙ ap closed (told-pulsedev chip head b listeners halted)

-- The machine is safe: the driver does not run, unless one of the events commits a start; the laser-enable line is high impedance and the latch
-- locked; the heater and the cooler are off and stay off over the heater's callbacks; and where the
-- buses carry the writes out, the PIC's output registers are 0, the measuring laser and the UV LED
-- off, and the lens motor's two bits set. Nothing else of the PIC's registers changed.
pub record IsMadeSafe (chip : Chip) (head : HeadChip) (b : Buses) (lines : List ℕ)
    (during : List Event) (m d : Machine chip head) : Type 0 where
  pub stopped : (d.pulsedev.cnc.state ≢ running) ⊎ (has_commit during ≡ true)
  pub laser_off : drive Pins.laser_on d.pulsedev.cnc.calls ≡ some input
  pub locked : level Pins.laser_latch_reset d.pulsedev.cnc.calls ≡ some 1
  pub loop_off : IsSafe (callbacks lines d.thermal)
  pub outputs_off :
      (q : ℕ)
      → chip.reg d.pic_state q
        ≡ (if b.pic_carried && is_output q then 0 else chip.reg m.pic_state q)
  pub measuring_off :
      head.word d.head_state head_reg_msr_laser
      ≡ (if b.laser_carried then 0 else head.word m.head_state head_reg_msr_laser)
  pub uv_off :
      head.word d.head_state head_reg_uv_led
      ≡ (if b.uv_carried then 0 else head.word m.head_state head_reg_uv_led)
  pub motor_off :
      (n : ℕ)
      → head.bit d.head_state head_reg_rw_grp n
        ≡ (head.bit m.head_state head_reg_rw_grp n || (b.motor_carried && has_bit 3 n))

-- A holder that closes the device while its dead man's switch is armed and the driver runs leaves the
-- whole machine safe, whatever other contexts do to the stepper driver in between, in whatever order
-- the PIC, head and thermal drivers registered, and whichever of the writes to their hardware fail:
-- the others still take effect. The three are registered on the chain. The driver does not run
-- afterwards, unless another context commits a start after the halt, while the chain is called or
-- before the latch is locked; the latch is locked and the laser-enable line high impedance even then.
pub close_makes_safe :
    (chip : Chip) (head : HeadChip) (b : Buses) (chain : NotifierChain) (listeners : List Listener)
    (k : Kfifo) (between during : List Event) (lines : List ℕ) (m : Machine chip head)
    → m.pulsedev.deadman_switch_active ≡ true
    → m.pulsedev.cnc.state ≡ running
    → any is_pic listeners ≡ true
    → any is_head listeners ≡ true
    → any is_thermal listeners ≡ true
    → IsMadeSafe chip head b lines during m
        (close chip head b chain listeners (steps k between) (steps k during) m).1
close_makes_safe chip head b chain listeners k between during lines m armed runs p h t =
    let bs = steps k between in
    let ds = steps k during in
    let e = close-told chip head b chain listeners bs ds m armed runs in
    let dev = close-pulsedev chip head b chain listeners bs ds m armed runs in
    let m1 = halted chip head b chain listeners bs ds m armed runs in
    let left = halted_and_left k during (bs m.pulsedev.cnc) in
    let latched = latched_lem (ds m1.pulsedev.cnc) in
    let safe = told-IsSafe chip head b listeners m1 t in
    record {
      stopped = rw dev left.0;
      laser_off = rw dev latched.0;
      locked = rw dev latched.1;
      loop_off = rw e (callbacks-IsSafe lines _ safe);
      outputs_off = λ q. rw (e, told-reg chip head b q listeners m1, p) refl;
      measuring_off = rw (e, told-laser chip head b listeners m1, h) refl;
      uv_off = rw (e, told-uv chip head b listeners m1, h) refl;
      motor_off = λ n. rw (e, told-motor chip head b n listeners m1, h) refl;
    }

-- What the close does to the pulse device is what it does without the chain.
pub close-pulsedev_close :
    (chip : Chip) (head : HeadChip) (b : Buses) (chain : NotifierChain) (listeners : List Listener)
    (between during : Cnc → Cnc) (m : Machine chip head)
    → let d = (close chip head b chain listeners between during m).1 in
      (pulsedev_close between during (some m.pulsedev)).1 ≡ some d.pulsedev
unfolding close pulsedev_close deadman_stop
close-pulsedev_close chip head b chain listeners between during m =
    let tripped = m.pulsedev.deadman_switch_active && is_running m.pulsedev.cnc.state in
    elim (Bool-cases tripped) [
      | inl y ↦
          let m1 : Machine chip head = record m {
            pulsedev = record (m.pulsedev) {
              cnc = call dms_notify (halt false (between m.pulsedev.cnc)).1;
            };
          } in
          rw (y, chain-told chip head b chain listeners m1, told-pulsedev chip head b listeners m1)
            refl
      | inr n ↦ rw n refl
    ]

-- A close that does not trip the switch leaves the other drivers as they were.
pub close_untripped :
    (chip : Chip) (head : HeadChip) (b : Buses) (chain : NotifierChain) (listeners : List Listener)
    (between during : Cnc → Cnc) (m : Machine chip head)
    → m.pulsedev.deadman_switch_active && is_running m.pulsedev.cnc.state ≡ false
    → let d = (close chip head b chain listeners between during m).1 in
      (d.pic_state ≡ m.pic_state) × (d.head_state ≡ m.head_state) × (d.thermal ≡ m.thermal)
unfolding close
close_untripped chip head b chain listeners between during m n = rw n (refl, refl, refl)
