-- ===== src/Playback/Plain.antt =====
-- A copy into the ring and a ring's set-up that obey the documented laws: the assumptions on them can be
-- met.
use kernel_module_glowforge.Base.{
  ◌/◌, ◌-◌, ltb, ℕ, zero, suc, ◌*◌, ◌<◌, ◌≤◌, ◌%◌, ◌^◌, ◌≡◌, ◌≢◌, true, false, List, [], ◌∷◌,
  if◌then◌else◌, refl, sym, ap, ◌∙◌, ◌==◌, add32, length, get_or, arith,
}
use kernel_module_glowforge.Buffer.Init.{FifoSetup}
use mathlib.Core.Path.{subst}
use kernel_module_glowforge.Playback.{Copier}
use kernel_module_glowforge.Playback.Window.{apart}

unfoldable pub copy_bytes : (ℕ → ℕ) → ℕ → ℕ → List ℕ → ℕ → ℕ
copy_bytes bytes size i [] o = bytes o
copy_bytes bytes size i (x ∷ xs) o =
    let rest = copy_bytes bytes size (add32 i 1) xs o in if add32 i 0 % size == o then x else rest

next_index : (i j : ℕ) → add32 (add32 i 1) j ≡ add32 i (suc j)
next_index i j = omega arith

differs : (a b : ℕ) → a ≢ b → (a == b) ≡ false
differs a b n = ground arith

same_number : (a : ℕ) → (a == a) ≡ true
same_number a = ground arith

first_apart :
    (turns size i j : ℕ)
    → turns * size ≡ 2 ^ 32
    → suc j < size
    → add32 i 0 % size ≢ add32 i (suc j) % size
first_apart turns size i j e l q =
    apart turns size i (suc j) 0 0 e (omega arith) (omega arith)
      (ap (λ o. o % size) (stays i j) ∙ sym q)
  where
    stays : (i j : ℕ) → add32 (add32 i (suc j)) 0 ≡ add32 i (suc j)
    stays i j = omega arith

pub copy_bytes-copied :
    (turns : ℕ) (bytes : ℕ → ℕ) (size i : ℕ) (new : List ℕ) (j : ℕ)
    → turns * size ≡ 2 ^ 32
    → j < length new
    → length new ≤ size
    → copy_bytes bytes size i new (add32 i j % size) ≡ get_or new j 0
unfolding copy_bytes
copy_bytes-copied turns bytes size i [] j e l r = elim (nothing j l) [ ]
  where
    nothing : (j : ℕ) → j < 0 → ⊥
    nothing j l = omega arith
copy_bytes-copied turns bytes size i (x ∷ xs) zero e l r = rw (same_number (add32 i 0 % size)) refl
copy_bytes-copied turns bytes size i (x ∷ xs) (suc j) e l r =
    rw (differs _ _ (first_apart turns size i j e (omega arith))) (
      subst (λ o. copy_bytes bytes size (add32 i 1) xs (o % size) ≡ get_or xs j 0) (next_index i j)
        (copy_bytes-copied turns bytes size (add32 i 1) xs j e (omega arith) (omega arith)))

pub copy_bytes-kept :
    (bytes : ℕ → ℕ) (size i : ℕ) (new : List ℕ) (o : ℕ)
    → ((j : ℕ) → j < length new → add32 i j % size ≢ o)
    → copy_bytes bytes size i new o ≡ bytes o
unfolding copy_bytes
copy_bytes-kept bytes size i [] o n = refl
copy_bytes-kept bytes size i (x ∷ xs) o n = rw (differs _ _ (n 0 (omega arith))) (
    copy_bytes-kept bytes size (add32 i 1) xs o
      (λ j l. subst (λ p. p % size ≢ o) (sym (next_index i j)) (n (suc j) (omega arith))))

abbrev pub copier : Copier
copier = record { copy_in = copy_bytes; copied_lem = copy_bytes-copied; kept_lem = copy_bytes-kept }

-- How often a number is halved before it is 1, `fuel` times at most.
unfoldable pub halvings : ℕ → ℕ → ℕ
halvings zero n = 0
halvings (suc fuel) n = let rest = halvings fuel (n / 2) in if ltb n 2 then 0 else suc rest

pub equal_numbers : (a b : ℕ) → (a == b) ≡ true → a ≡ b
equal_numbers a b h = ground arith

abbrev pub plain_setup : FifoSetup
plain_setup = record {
  is_power_of_2 = λ n. n == 2 ^ halvings n n;
  exponent = λ n. halvings n n;
  kfifo_init = λ size f. (0, record { in_ix = 0; out_ix = 0; mask = size - 1 });
  exponent_lem = λ n h. equal_numbers n (2 ^ halvings n n) h;
  kfifo_init_lem = λ e f a b. refl;
}
