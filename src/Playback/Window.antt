-- ===== src/Playback/Window.antt =====
-- The bytes of the ring from a free-running index on.
use kernel_module_glowforge.Base.{
  ℕ, zero, suc, ◌+◌, ◌*◌, ◌-◌, ◌<◌, ◌%◌, ◌^◌, ◌≡◌, ◌≢◌, List, [], ◌∷◌, ◌++◌, refl, sym, ap, ◌∙◌,
  add32, length, get_or, zero_plus, suc_plus, arith,
}
use Prim.Native.Nat.{◌∣◌}
use mathlib.Core.Path.{subst, ap₂}
use native.Mathlib.Nat.{dvd-mul_left, mod-mod_of_dvd}
use kernel_module_glowforge.Engine.DeadStop.{part_moves}

-- The `n` bytes from the index on, of a ring of the size.
abbrev pub window : (ℕ → ℕ) → ℕ → ℕ → ℕ → List ℕ
window bytes size h zero = []
window bytes size h (suc n) = bytes (h % size) ∷ window bytes size (add32 h 1) n

add_next : (h n : ℕ) → add32 (add32 h 1) n ≡ add32 h (suc n)
add_next h n = omega arith

add_zero32 : (h : ℕ) → h < 2 ^ 32 → add32 h 0 ≡ h
add_zero32 h b = omega arith

module _ (bytes : ℕ → ℕ) (size : ℕ) where
  pub window-append :
      (h a b : ℕ)
      → h < 2 ^ 32
      → window bytes size h (a + b) ≡ window bytes size h a ++ window bytes size (add32 h a) b
  window-append h zero b l = rw (add_zero32 h l, zero_plus b) refl
  window-append h (suc a) b l = rw (suc_plus a b) (
      ap (λ w. bytes (h % size) ∷ w)
        (window-append (add32 h 1) a b (omega arith)
          ∙ ap (λ i. window bytes size (add32 h 1) a ++ window bytes size i b) (add_next h a)))

  -- A window is read at its offsets only.
  pub window_kept :
      (other : ℕ → ℕ) (h n : ℕ)
      → h < 2 ^ 32
      → ((j : ℕ) → j < n → bytes (add32 h j % size) ≡ other (add32 h j % size))
      → window bytes size h n ≡ window other size h n
  window_kept other h zero l same = refl
  window_kept other h (suc n) l same =
      ap₂ ◌∷◌
        (subst (λ i. bytes (i % size) ≡ other (i % size)) (add_zero32 h l) (same 0 (omega arith)))
        (window_kept other (add32 h 1) n (omega arith) (λ j b.
          subst (λ i. bytes (i % size) ≡ other (i % size)) (sym (add_next h j))
            (same (suc j) (omega arith))))

  -- A window that holds a list.
  pub window_of :
      (h : ℕ) (new : List ℕ)
      → h < 2 ^ 32
      → ((j : ℕ) → j < length new → bytes (add32 h j % size) ≡ get_or new j 0)
      → window bytes size h (length new) ≡ new
  window_of h [] l holds = refl
  window_of h (x ∷ xs) l holds =
      ap₂ ◌∷◌ (subst (λ i. bytes (i % size) ≡ x) (add_zero32 h l) (holds 0 (omega arith))) (
        window_of (add32 h 1) xs (omega arith) (λ j b.
          subst (λ i. bytes (i % size) ≡ get_or xs j 0) (sym (add_next h j))
            (holds (suc j) (omega arith))))

-- Indices less than a ring apart have different offsets.
pub apart :
    (k size h n j i : ℕ)
    → k * size ≡ 2 ^ 32
    → j < n
    → n + i < size
    → add32 (add32 h n) i % size ≢ add32 h j % size
apart k size h n j i e l r q = part_moves (h + j) (n + i - j) size (omega arith) (omega arith) (
    ap (λ x. x % size) (there h n i j l)
    ∙ sym (word (h + n + i))
    ∙ ap (λ x. x % size) (sym (twice h n i))
    ∙ q
    ∙ word (h + j))
  where
    word : (x : ℕ) → x % 2 ^ 32 % size ≡ x % size
    word x = mod-mod_of_dvd size x (subst (λ d. size ∣ d) e (dvd-mul_left size k))

    there : (h n i j : ℕ) → j < n → h + j + (n + i - j) ≡ h + n + i
    there h n i j l = omega arith

    twice : (h n i : ℕ) → add32 (add32 h n) i ≡ (h + n + i) % 2 ^ 32
    twice h n i = omega arith
