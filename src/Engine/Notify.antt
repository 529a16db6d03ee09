-- ===== src/Engine/Notify.antt =====
-- The end of the data: the engine parks, and keeps telling the host.
use kernel_module_glowforge.Base.{ℕ, suc, ◌+◌, ◌<◌, ◌≡◌, ◌⊎◌, false, List, [], ◌∷◌}
use kernel_module_glowforge.Engine.{Engine, Output, interrupts}

-- How often the host was interrupted.
abbrev pub raised : List Output → ℕ
raised [] = 0
raised (interrupts ∷ older) = suc (raised older)
raised (_ ∷ older) = raised older

-- Two events of a parked engine: one that counts, and the one at `start`; `n` more are to come.
abbrev Counted : ℕ → Engine → Engine → Type 0
Counted n e d =
    (d.direction ≡ 0)
    × (d.at_start ≡ false)
    × (d.head ≡ e.head)
    × (((n ≡ 0) × (d.r2 ≡ 0) × (raised d.outputs ≡ suc (raised e.outputs)))
        ⊎ ((0 < n) × (d.r2 + n ≡ 255) × (raised d.outputs ≡ raised e.outputs)))

abbrev Renotified : Engine → Engine → Type 0
Renotified e d =
    (d.direction ≡ 0)
    × (d.at_start ≡ false)
    × (d.head ≡ e.head)
    × (d.r2 ≡ 0)
    × (raised d.outputs ≡ suc (raised e.outputs))
