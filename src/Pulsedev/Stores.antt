-- ===== src/Pulsedev/Stores.antt =====
-- The numbers written to the `resume` attribute.
use kernel_module_glowforge.Base.{ℕ, ◌-◌, ◌^◌, ◌<◌, ◌≡◌, ◌⊎◌, arith}
use kernel_module_glowforge.Pulsedev.{
  Signed, positive, negative, walks_back, goes_on, resume_request,
}

-- A write to `resume` walks back by n steps exactly for the number -n, and for its 32-bit
-- two's complement, and goes on with a waypoint n steps ahead exactly for the number n, where n has
-- 28 bits, so that the waypoint counter cannot truncate it; every other number is refused.
pub resume_request_lem :
    (raw : Signed) (n : ℕ)
    → (resume_request raw ≡ walks_back n
        → (n < 2 ^ 28) × ((raw ≡ negative n) ⊎ (raw ≡ positive (2 ^ 32 - n))))
      × (resume_request raw ≡ goes_on n → (n < 2 ^ 28) × (raw ≡ positive n))
      × (n < 2 ^ 28 → raw ≡ negative n → resume_request raw ≡ walks_back n)
      × (0 < n → n < 2 ^ 28 → raw ≡ positive (2 ^ 32 - n) → resume_request raw ≡ walks_back n)
      × (n < 2 ^ 28 → raw ≡ positive n → resume_request raw ≡ goes_on n)
unfolding resume_request
resume_request_lem raw n = ground arith
