-- ===== src/Pulsedev/Holders.antt =====
-- Who holds the pulse device, over any history of opens, closes and locks.
use kernel_module_glowforge.Base.{
  ◌≡◌, ◌↔◌, Bool, true, false, not, ◌&&◌, ◌||◌, Option, none, some, List, [], ◌∷◌, arith,
}
use kernel_module_glowforge.Kernel.{ok}
use kernel_module_glowforge.Cnc.State.{Cnc}
use kernel_module_glowforge.Pulsedev.{
  Pulsedev, pulsedev_open, pulsedev_close, pulsedev_flock, LockCmd, LockType, is_setlk, f_rdlck,
  f_wrlck, f_unlck, f_setlk, f_setlkw, other_cmd,
}

-- An operation on the device; a close comes with what other contexts do in its two gaps.
pub data Op : Type 0 where
  opens : Op
  closes : (Cnc → Cnc) → (Cnc → Cnc) → Op
  locks : LockCmd → LockType → Op

unfoldable pub run_op : Op → Option Pulsedev → Option Pulsedev
unfolding pulsedev_open pulsedev_close pulsedev_flock
run_op opens d = (pulsedev_open d).1
run_op (closes between during) d = (pulsedev_close between during d).1
run_op (locks cmd type) d = (pulsedev_flock cmd type d).1

-- The device after a history, newest operation first.
unfoldable pub run_ops : List Op → Option Pulsedev → Option Pulsedev
unfolding run_op
run_ops [] d = d
run_ops (op ∷ older) d = run_op op (run_ops older d)

-- The device is held from an open until the next close.
abbrev pub holding : List Op → Bool
holding [] = false
holding (opens ∷ older) = true
holding (closes between during ∷ older) = false
holding (locks cmd type ∷ older) = holding older

-- The switch is armed by an exclusive lock, and disarmed by an unlock and by the first open after a
-- close.
abbrev pub armed : List Op → Bool
armed [] = false
armed (opens ∷ older) = armed older && holding older
armed (closes between during ∷ older) = armed older
armed (locks cmd f_rdlck ∷ older) = armed older
armed (locks cmd f_wrlck ∷ older) = is_setlk cmd || armed older
armed (locks cmd f_unlck ∷ older) = not (is_setlk cmd) && armed older

-- The device is held and its switch is armed as the history says.
abbrev pub Holds : List Op → Option Pulsedev → Type 0
Holds ops none = ⊥
Holds ops (some p) = (p.pulsedev_in_use ≡ holding ops) × (p.deadman_switch_active ≡ armed ops)

run_op-Holds :
    (op : Op) (older : List Op) (d : Option Pulsedev)
    → Holds older d
    → Holds (op ∷ older) (run_op op d)
unfolding run_op
run_op-Holds opens older (some p) h = ground arith
run_op-Holds opens older none h = elim h [ ]
run_op-Holds (closes between during) older (some p) h = ground arith
run_op-Holds (closes between during) older none h = elim h [ ]
run_op-Holds (locks f_setlk f_rdlck) older (some p) h = ground arith
run_op-Holds (locks f_setlk f_rdlck) older none h = elim h [ ]
run_op-Holds (locks f_setlk f_wrlck) older (some p) h = ground arith
run_op-Holds (locks f_setlk f_wrlck) older none h = elim h [ ]
run_op-Holds (locks f_setlk f_unlck) older (some p) h = ground arith
run_op-Holds (locks f_setlk f_unlck) older none h = elim h [ ]
run_op-Holds (locks f_setlkw f_rdlck) older (some p) h = ground arith
run_op-Holds (locks f_setlkw f_rdlck) older none h = elim h [ ]
run_op-Holds (locks f_setlkw f_wrlck) older (some p) h = ground arith
run_op-Holds (locks f_setlkw f_wrlck) older none h = elim h [ ]
run_op-Holds (locks f_setlkw f_unlck) older (some p) h = ground arith
run_op-Holds (locks f_setlkw f_unlck) older none h = elim h [ ]
run_op-Holds (locks other_cmd f_rdlck) older (some p) h = ground arith
run_op-Holds (locks other_cmd f_rdlck) older none h = elim h [ ]
run_op-Holds (locks other_cmd f_wrlck) older (some p) h = ground arith
run_op-Holds (locks other_cmd f_wrlck) older none h = elim h [ ]
run_op-Holds (locks other_cmd f_unlck) older (some p) h = ground arith
run_op-Holds (locks other_cmd f_unlck) older none h = elim h [ ]

open-Holds :
    (ops : List Op) (d : Option Pulsedev)
    → Holds ops d
    → ((pulsedev_open d).0 ≡ ok ↔ holding ops ≡ false)
unfolding pulsedev_open
open-Holds ops (some p) h = ground arith
open-Holds ops none h = elim h [ ]

all-Holds :
    (p : Pulsedev) (ops : List Op)
    → p.pulsedev_in_use ≡ false
    → p.deadman_switch_active ≡ false
    → Holds ops (run_ops ops (some p))
unfolding run_ops
all-Holds p [] free unarmed = (free, unarmed)
all-Holds p (op ∷ older) free unarmed = run_op-Holds op older _ (all-Holds p older free unarmed)

-- After any history of opens, closes and locks the device is held, and its dead man's switch armed,
-- as the history says, and a further open succeeds exactly if the device is not held.
pub run_ops-Holds :
    (p : Pulsedev) (ops : List Op)
    → p.pulsedev_in_use ≡ false
    → p.deadman_switch_active ≡ false
    → Holds ops (run_ops ops (some p))
      × ((pulsedev_open (run_ops ops (some p))).0 ≡ ok ↔ holding ops ≡ false)
run_ops-Holds p ops free unarmed = let h = all-Holds p ops free unarmed in (h, open-Holds ops _ h)
