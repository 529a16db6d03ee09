-- ===== src/Access/Reaches.antt =====
-- A state that a sequence of events leads to.
use kernel_module_glowforge.Base.{
  ℕ, ◌||◌, ◌==◌, ◌≡◌, refl, ◌∙◌, ap, sym, Bool, true, false, if◌then◌else◌, List, [], ◌∷◌, ◌++◌,
}
use kernel_module_glowforge.Kernel.{Ret, fail, Errno}
use kernel_module_glowforge.Ring.{Kfifo}
use kernel_module_glowforge.Cnc.State.{Cnc}
use kernel_module_glowforge.Pulsedev.Settings.{command_store, bool_store}
use kernel_module_glowforge.Cnc.Event.{Event, step, steps, steps-append}

pub record Reaches (k : Kfifo) (c d : Cnc) : Type 0 where
  pub events : List Event
  pub reached : d ≡ steps k events c

-- A function's result has a state that is reached.
pub record Leads (k : Kfifo) (c : Cnc) (r : Ret × Cnc) : Type 0 where
  pub leads : Reaches k c r.1

module _ (k : Kfifo) where
  pub stays : (c : Cnc) → Reaches k c c
  unfolding steps
  stays c = record { events = []; reached = refl }

  pub by_steps : (es : List Event) (c : Cnc) → Reaches k c (steps k es c)
  by_steps es c = record { events = es; reached = refl }

  pub by_step : (e : Event) (c : Cnc) → Reaches k c (step k e c)
  unfolding steps
  by_step e c = record { events = e ∷ []; reached = refl }

  pub then-Reaches : {c d e : Cnc} → Reaches k c d → Reaches k d e → Reaches k c e
  then-Reaches {c} {d} {e} p q = record {
    events = p.events ++ q.events;
    reached =
        q.reached ∙ ap (steps k q.events) p.reached ∙ sym (steps-append k p.events q.events c);
  }

  -- Whichever branch is taken
  pub one_of :
      (b : Bool) (p q : Ret × Cnc) {c : Cnc}
      → Leads k c p
      → Leads k c q
      → Leads k c (if b then p else q)
  one_of true p q r s = r
  one_of false p q r s = s

  pub either_of :
      (b : Bool) (d e : Cnc) {c : Cnc}
      → Reaches k c d
      → Reaches k c e
      → Reaches k c (if b then d else e)
  either_of true d e r s = r
  either_of false d e r s = s

  -- A write of a text that the attribute does not take does nothing.
  pub command_store-Leads :
      (command : Cnc → Ret × Cnc) (chars : List ℕ) (c : Cnc)
      → Leads k c (command c)
      → Leads k c (command_store command chars c)
  unfolding command_store
  command_store-Leads command [] c r = record { leads = stays c }
  command_store-Leads command (ch ∷ rest) c r =
      one_of (ch == 49) (command c) (fail Errno.einval, c) r (record { leads = stays c })

  pub bool_store-Leads :
      (fn : Bool → Cnc → Ret × Cnc) (chars : List ℕ) (c : Cnc)
      → ((b : Bool) → Leads k c (fn b c))
      → Leads k c (bool_store fn chars c)
  unfolding bool_store
  bool_store-Leads fn [] c r = record { leads = stays c }
  bool_store-Leads fn (ch ∷ rest) c r =
      one_of (ch == 48 || (ch == 49)) (fn (ch == 49) c) (fail Errno.einval, c) (r (ch == 49))
        (record { leads = stays c })
