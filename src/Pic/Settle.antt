-- ===== src/Pic/Settle.antt =====
-- The busy wait before a transfer (`pic_transfer`, src/pic.c).
use kernel_module_glowforge.Base.{ℕ, zero, suc, ◌+◌, ◌-◌, ◌≤◌, ◌<◌, ◌≡◌, List, [], ◌∷◌, All, arith}
use kernel_module_glowforge.Pic.Raw.{settle_rounds}

abbrev pub sum : List ℕ → ℕ
sum [] = 0
sum (n ∷ ns) = n + sum ns

-- The wait ends after as many rounds as microseconds at the most, lasts as long as is asked, and no
-- round is longer than the 50 microseconds that the kernel's delay is asked for.
pub settles :
    (n settle : ℕ)
    → settle ≤ n
    → (sum (settle_rounds n settle) ≡ settle)
      × All (λ r. (0 < r) × (r ≤ 50)) (settle_rounds n settle)
unfolding settle_rounds
settles zero settle l = (omega arith, tt)
settles (suc n) settle l = ground (arith, settles n (settle - 1), settles n (settle - 50))
