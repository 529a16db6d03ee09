-- ===== src/Pulsedev/Settings.antt =====
-- The stores and shows of the stepper driver's settings (src/cnc_api.c). What the kernel's `kstrtoul`
-- and `sscanf` make of a text is a parameter of a store; a show is the number that it prints.
use kernel_module_glowforge.Base.{
  ℕ, ◌+◌, ◌*◌, ◌/◌, ◌≡◌, ◌⊎◌, inr, Bool, true, false, ◌||◌, List, [], ◌∷◌, get_or, ◌==◌,
  if◌then◌else◌, refl, arith,
}
use kernel_module_glowforge.Kernel.{Ret, ok, fail, Errno, is_ok}
use kernel_module_glowforge.Cnc.State.{Cnc, Faults}
use kernel_module_glowforge.Cnc.Control.{
  set_step_frequency, set_ramp_rate_hz_per_s, get_ramp_rate_hz_per_s,
}
use kernel_module_glowforge.Cnc.Laser.{set_streaming}
use kernel_module_glowforge.Pulsedev.{Parsed, bad, number, ignored_faults_store}

-- `step_freq_store`, `ramp_rate_store`
unfoldable pub step_freq_store : Parsed → Cnc → Ret × Cnc
unfolding set_step_frequency
step_freq_store (bad e) c = (fail e, c)
step_freq_store (number new_freq) c = set_step_frequency new_freq c

unfoldable pub ramp_rate_store : Parsed → Cnc → Ret × Cnc
unfolding set_ramp_rate_hz_per_s
ramp_rate_store (bad e) c = (fail e, c)
ramp_rate_store (number new_rate) c = set_ramp_rate_hz_per_s new_rate c

-- The first character of the text, where there is one: `DEFINE_COMMAND_ATTR` takes a `1`, and
-- `DEFINE_BOOL_ATTR` a `0` or a `1`.
unfoldable pub command_store : (Cnc → Ret × Cnc) → List ℕ → Cnc → Ret × Cnc
command_store command [] c = (fail Errno.einval, c)
command_store command (ch ∷ rest) c =
    let (ret, d) = command c in if ch == 49 then (ret, d) else (fail Errno.einval, c)

unfoldable pub bool_store : (Bool → Cnc → Ret × Cnc) → List ℕ → Cnc → Ret × Cnc
bool_store fn [] c = (fail Errno.einval, c)
bool_store fn (ch ∷ rest) c =
    let (ret, d) = fn (ch == 49) c in
    if ch == 48 || (ch == 49) then (ret, d) else (fail Errno.einval, c)

-- `streaming_store`
unfoldable pub streaming_store : List ℕ → Cnc → Ret × Cnc
unfolding set_streaming
streaming_store [] c = (fail Errno.einval, c)
streaming_store (ch ∷ rest) c =
    if ch == 48 || (ch == 49) then (ok, set_streaming (ch == 49) c) else (fail Errno.einval, c)

-- `step_freq_show`, `ramp_rate_show`, `ignored_faults_show`, `faults_show`, `streaming_show`,
-- `underruns_show`
abbrev pub step_freq_show : Cnc → ℕ
step_freq_show c = c.step_freq

abbrev pub ramp_rate_show : Cnc → ℕ
ramp_rate_show c = get_ramp_rate_hz_per_s c

abbrev pub mask_number : Faults → ℕ
mask_number f =
    (if f.fault_x then 1 else 0) + (if f.fault_y1 then 2 else 0) + (if f.fault_y2 then 4 else 0)

abbrev pub ignored_faults_show : Cnc → ℕ
ignored_faults_show c = mask_number c.ignored_faults

abbrev pub faults_show : Cnc → ℕ
faults_show c = mask_number c.triggered_faults

abbrev pub streaming_show : Cnc → ℕ
streaming_show c = if c.streaming then 1 else 0

abbrev pub underruns_show : Cnc → ℕ
underruns_show c = c.underrun_count

-- The settings that a user writes a text to.
pub data Setting : Type 0 where
  step_freq_attr ramp_rate_attr ignored_faults_attr streaming_attr : Setting

-- What a store is given: the number of the text, and its characters.
pub record Text : Type 0 where
  pub parsed : Parsed
  pub chars : List ℕ

unfoldable pub store : Setting → Text → Cnc → Ret × Cnc
unfolding step_freq_store ramp_rate_store ignored_faults_store streaming_store
store step_freq_attr t c = step_freq_store t.parsed c
store ramp_rate_attr t c = ramp_rate_store t.parsed c
store ignored_faults_attr t c = ignored_faults_store t.parsed c
store streaming_attr t c = streaming_store t.chars c

abbrev pub show : Setting → Cnc → ℕ
show step_freq_attr c = step_freq_show c
show ramp_rate_attr c = ramp_rate_show c
show ignored_faults_attr c = ignored_faults_show c
show streaming_attr c = streaming_show c

abbrev number_in : Parsed → ℕ
number_in (bad e) = 0
number_in (number n) = n

-- What a text that is taken shows afterwards.
abbrev pub expected : Setting → Text → ℕ
expected step_freq_attr t = number_in t.parsed
expected ramp_rate_attr t = number_in t.parsed / 100 * 100
expected ignored_faults_attr t = number_in t.parsed
expected streaming_attr t = if get_or t.chars 0 0 == 49 then 1 else 0

abbrev Answered : Setting → Text → Cnc → Ret × Cnc → Type 0
Answered s t c r =
    ((is_ok r.0 ≡ true) × (show s r.1 ≡ expected s t)) ⊎ ((is_ok r.0 ≡ false) × (r.1 ≡ c))

freq-Answered :
    (p : Parsed) (l : List ℕ) (c : Cnc)
    → Answered step_freq_attr (record { parsed = p; chars = l }) c (step_freq_store p c)
unfolding step_freq_store
freq-Answered (bad e) l c = inr (refl, refl)
freq-Answered (number n) l c = ground arith

rate-Answered :
    (p : Parsed) (l : List ℕ) (c : Cnc)
    → Answered ramp_rate_attr (record { parsed = p; chars = l }) c (ramp_rate_store p c)
unfolding ramp_rate_store get_ramp_rate_hz_per_s
rate-Answered (bad e) l c = inr (refl, refl)
rate-Answered (number n) l c = ground arith

faults-Answered :
    (p : Parsed) (l : List ℕ) (c : Cnc)
    → Answered ignored_faults_attr (record { parsed = p; chars = l }) c (ignored_faults_store p c)
unfolding ignored_faults_store
faults-Answered (bad e) l c = inr (refl, refl)
faults-Answered (number n) l c = ground arith

streaming-Answered :
    (p : Parsed) (l : List ℕ) (c : Cnc)
    → Answered streaming_attr (record { parsed = p; chars = l }) c (streaming_store l c)
unfolding streaming_store
streaming-Answered p [] c = inr (refl, refl)
streaming-Answered p (ch ∷ rest) c = ground arith

-- A text written to a setting is either taken, and then the setting shows its number (the ramp's rate
-- rounded down to a multiple of 100, streaming as 1 or 0 by its first character), or refused with an
-- error, and then nothing of the driver is changed.
pub settings_read_back :
    (s : Setting) (t : Text) (c : Cnc)
    → let (ret, d) = store s t c in
      ((is_ok ret ≡ true) × (show s d ≡ expected s t)) ⊎ ((is_ok ret ≡ false) × (d ≡ c))
unfolding store
settings_read_back step_freq_attr t c = freq-Answered t.parsed t.chars c
settings_read_back ramp_rate_attr t c = rate-Answered t.parsed t.chars c
settings_read_back ignored_faults_attr t c = faults-Answered t.parsed t.chars c
settings_read_back streaming_attr t c = streaming-Answered t.parsed t.chars c
