-- ===== src/Deadman/Tests.antt =====
-- A machine whose job is cut short, with a chain that calls its handlers.
use kernel_module_glowforge.Base.{
  ℕ, ◌/◌, ◌%◌, ◌≡◌, true, false, List, [], ◌∷◌, ◌==◌, if◌then◌else◌, refl,
}
use kernel_module_glowforge.Ring.{Ring}
use kernel_module_glowforge.Ring.Plain.{plain_kfifo}
use kernel_module_glowforge.Cnc.Event.{ramp_tick, sets_freq, steps}
use kernel_module_glowforge.Cnc.State.{running}
use kernel_module_glowforge.Cnc.Fault.{zeroed}
use kernel_module_glowforge.Pic.Tests.{working_chip, sevens}
use kernel_module_glowforge.Head.Tests.{working_head, measuring}
use kernel_module_glowforge.Deadman.{
  NotifierChain, Buses, Listener, pic_listener, head_listener, thermal_listener, Machine, close,
}
use kernel_module_glowforge.Deadman.Safe.{IsMadeSafe, close_makes_safe}

call_handlers : {S : Type 0} → List (S → ℕ × S) → S → S
call_handlers [] s = s
call_handlers (h ∷ hs) s =
    let rest = call_handlers hs (h s).1 in if (h s).0 / 0x8000 % 2 == 1 then (h s).1 else rest

call_next :
    {S : Type 0} (h : S → ℕ × S) (hs : List (S → ℕ × S)) (s : S)
    → (h s).0 / 0x8000 % 2 ≡ 0
    → call_handlers (h ∷ hs) s ≡ call_handlers hs (h s).1
unfolding call_handlers
call_next h hs s e = rw e refl

call_stop :
    {S : Type 0} (h : S → ℕ × S) (hs : List (S → ℕ × S)) (s : S)
    → (h s).0 / 0x8000 % 2 ≡ 1
    → call_handlers (h ∷ hs) s ≡ (h s).1
unfolding call_handlers
call_stop h hs s e = rw e refl

call_end : {S : Type 0} (s : S) → call_handlers [] s ≡ s
unfolding call_handlers
call_end s = refl

abbrev plain_chain : NotifierChain
plain_chain = record {
  call_chain = call_handlers;
  end_lem = call_end;
  next_lem = call_next;
  stop_lem = call_stop;
}

abbrev ring : Ring
ring = record { fifo = record { in_ix = 5000; out_ix = 0; mask = 65535 }; total_bytes = 5000 }

abbrev cutting : Machine working_chip working_head
cutting = record {
  pulsedev = record {
    cnc = record (zeroed ring) { state = running; step_freq = 10000 };
    pulsedev_in_use = true;
    deadman_switch_active = true;
  };
  pic_state = sevens;
  head_state = measuring;
  thermal = record { heater_duty_fraction = 30000; calls = [] };
}

-- The head's second write fails.
abbrev buses : Buses
buses = record {
  pic_carried = true;
  pic_stale = 0;
  pic_reply = record { status = 0; rxbuf = [] };
  motor_carried = true;
  laser_carried = false;
  uv_carried = true;
}

-- In the order of the module's init
abbrev in_order : List Listener
in_order = pic_listener ∷ head_listener ∷ thermal_listener ∷ []

close_makes_safe_example :
    IsMadeSafe working_chip working_head buses
      (0 ∷ 1 ∷ [])
      (sets_freq 1 ∷ [])
      cutting
      (close working_chip working_head buses plain_chain in_order
        (steps plain_kfifo (ramp_tick ∷ []))
        (steps plain_kfifo (sets_freq 1 ∷ []))
        cutting).1
close_makes_safe_example =
    close_makes_safe working_chip working_head buses plain_chain in_order plain_kfifo
      (ramp_tick ∷ []) (sets_freq 1 ∷ []) (0 ∷ 1 ∷ []) cutting refl refl refl refl refl
