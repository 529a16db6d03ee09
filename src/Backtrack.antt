-- ===== src/Backtrack.antt =====
-- The bounds of a backward run over the pulse ring (src/cnc_backtrack.h), with 32-bit wrap-around.
pub mod Bounds
mod Tests
use kernel_module_glowforge.Base.{
  ℕ, ◌+◌, ◌-◌, ◌*◌, ◌/◌, ◌%◌, ltb, ◌==◌, if◌then◌else◌, u32_mod, sub32,
}

-- `cnc_backtrack_decel_steps`
unfoldable pub decel_steps : ℕ → ℕ → ℕ
decel_steps step_freq ramp_rate =
    let f_khz = (step_freq + 999) % u32_mod / 1000 in
    let r = ramp_rate / 1000 in
    let r_khz = if r == 0 then 1 else r in (step_freq * f_khz % u32_mod) / (2 * r_khz % u32_mod)

-- `cnc_backtrack_max_steps`; `total_bytes` is a 64-bit count.
unfoldable pub max_steps : ℕ → ℕ → ℕ → ℕ → ℕ
max_steps ring_size unplayed total_bytes decel_steps =
    let played = if ltb unplayed total_bytes then total_bytes - unplayed else 0 in
    let resident = sub32 ring_size unplayed in
    let genuine = if ltb played resident then played % u32_mod else resident in
    if ltb decel_steps genuine then genuine - decel_steps else 0

-- `cnc_backtrack_span`
unfoldable pub span : ℕ → ℕ → ℕ
span ring_size total_bytes = if ltb total_bytes ring_size then total_bytes % u32_mod else ring_size
