-- ===== src/Ledtrig/Lookup.antt =====
-- The reverse lookup in the gamma table.
use kernel_module_glowforge.Base.{
  ℕ, zero, suc, ◌+◌, ◌-◌, ◌≤◌, ◌<◌, ◌≡◌, ◌⊎◌, some, none, Option, leb, length, ◌/◌, arith, refl,
  true, ◌&&◌, get_or, Bool, List, [], ◌∷◌,
}
use kernel_module_glowforge.Ledtrig.{search_from, value_from_raw_brightness, correction_table}

-- Index `i` of the table is one that a search may end at: it holds the number, or the number lies
-- between it and its neighbour.
pub record Nearest (table : ℕ → ℕ) (n raw i : ℕ) : Type 0 where
  pub in_table : i < n
  pub none_below : (j : ℕ) → j < n → table i < raw → (table j ≤ table i) ⊎ (raw < table j)
  pub none_above : (j : ℕ) → j < n → raw < table i → (table j < raw) ⊎ (table i ≤ table j)

module _ (table : ℕ → ℕ) (n raw : ℕ) (sorted : (i j : ℕ) → i ≤ j → j < n → table i ≤ table j) where
  -- The state of the loop: what lies below `start` is less, what lies from `end` on is greater, and
  -- once the range is empty the last index is at its edge.
  record Searching (start end mid : ℕ) : Type 0 where
    ordered : start ≤ end
    fits : end ≤ n
    less : (j : ℕ) → j < start → table j < raw
    greater : (j : ℕ) → end ≤ j → j < n → raw < table j
    edge : (start < end) ⊎ ((mid + 1 ≡ start) ⊎ ((mid ≡ end) × (mid < n)))

  ends-Nearest :
      (start end mid : ℕ) → Searching start end mid → end ≤ start → Nearest table n raw mid
  ends-Nearest start end mid s h = record {
    in_table = let f = s.fits in let e = s.edge in ground arith;
    none_below = λ j b c.
        let l = s.less in
        let g = s.greater j in
        let g2 = s.greater mid in let e = s.edge in let t = sorted j mid in ground arith;
    none_above = λ j b c.
        let l = s.less j in
        let l2 = s.less mid in let e = s.edge in let t = sorted mid j in ground arith;
  }

  below-Searching :
      (start end mid m : ℕ)
      → Searching start end mid
      → start ≤ m
      → m < end
      → raw < table m
      → Searching start m m
  below-Searching start end mid m s low high lt = record {
    ordered = low;
    fits = let f = s.fits in ground arith;
    less = s.less;
    greater = λ j b c. let t = sorted m j b c in ground arith;
    edge = let f = s.fits in ground arith;
  }

  above-Searching :
      (start end mid m : ℕ)
      → Searching start end mid
      → start ≤ m
      → m < end
      → table m < raw
      → Searching (m + 1) end m
  above-Searching start end mid m s low high lt = record {
    ordered = ground arith;
    fits = s.fits;
    less =
        λ j b. let f = s.fits in let t = sorted j m (ground arith) (ground arith) in ground arith;
    greater = s.greater;
    edge = ground arith;
  }

  -- The search ended at such an index, with fuel left.
  abbrev Finds : Option ℕ → Type 0
  Finds none = ⊥
  Finds (some i) = Nearest table n raw i

  found-Nearest : (m : ℕ) → m < n → table m ≡ raw → Nearest table n raw m
  found-Nearest m h e = record {
    in_table = h;
    none_below = λ j b c. ground arith;
    none_above = λ j b c. ground arith;
  }

  search-Finds :
      (fuel start end mid : ℕ)
      → Searching start end mid
      → end ≤ start + fuel
      → Finds (search_from table raw fuel start end mid)
  unfolding search_from
  search-Finds zero start end mid s h =
      let stop = ends-Nearest start end mid s (ground arith) in ground arith
  search-Finds (suc fuel) start end mid s h =
      let m = start + (end - start) / 2 in
      let lower : start < end → raw < table m → Finds (search_from table raw fuel start m m) =
        λ a b.
          search-Finds fuel start m m
            (below-Searching start end mid m s (ground arith) (ground arith) b) (ground arith) in
      let upper : start < end → table m < raw → Finds (search_from table raw fuel (m + 1) end m) =
        λ a b.
          search-Finds fuel (m + 1) end m
            (above-Searching start end mid m s (ground arith) (ground arith) b) (ground arith) in
      let at : start < end → table m ≡ raw → Nearest table n raw m =
        λ a b. found-Nearest m (let f = s.fits in ground arith) b in
      let stop : end ≤ start → Nearest table n raw mid = ends-Nearest start end mid s in
      ground arith

  found : (r : Option ℕ) → Finds r → (i : ℕ) × (r ≡ some i) × Nearest table n raw i
  found none h = elim h [ ]
  found (some i) h = (i, refl, h)

-- No entry of a list is greater than the one after it.
abbrev is_sorted : List ℕ → Bool
is_sorted [] = true
is_sorted (x ∷ []) = true
is_sorted (x ∷ y ∷ ys) = leb x y && is_sorted (y ∷ ys)

get_or-sorted :
    (xs : List ℕ) (i j : ℕ)
    → is_sorted xs ≡ true
    → i ≤ j
    → j < length xs
    → get_or xs i 0 ≤ get_or xs j 0
get_or-sorted [] i j s h l = ground arith
get_or-sorted (x ∷ []) i zero s h l = ground arith
get_or-sorted (x ∷ []) i (suc j) s h l = ground arith
get_or-sorted (x ∷ y ∷ ys) zero zero s h l = ground arith
get_or-sorted (x ∷ y ∷ ys) zero (suc j) s h l =
    let r = get_or-sorted (y ∷ ys) zero j (ground arith) (ground arith) (ground arith) in
    ground arith
get_or-sorted (x ∷ y ∷ ys) (suc i) zero s h l = ground arith
get_or-sorted (x ∷ y ∷ ys) (suc i) (suc j) s h l =
    get_or-sorted (y ∷ ys) i j (ground arith) (ground arith) (ground arith)

-- The 10-bit brightness of an index.
abbrev pub corrected : ℕ → ℕ
corrected i = get_or correction_table i 0

corrected_sorted : (i j : ℕ) → i ≤ j → j < 256 → corrected i ≤ corrected j
corrected_sorted i j h l = get_or-sorted correction_table i j refl h l

-- The loop's state at its start.
at_start : (raw : ℕ) → Searching corrected 256 raw corrected_sorted 0 256 0
at_start raw = record {
  ordered = ground arith;
  fits = ground arith;
  less = λ j b. ground arith;
  greater = λ j b c. ground arith;
  edge = ground arith;
}

-- An index so near to a number that the table has holds the number.
exact :
    (raw i j : ℕ) → Nearest corrected 256 raw i → j < 256 → corrected j ≡ raw → corrected i ≡ raw
exact raw i j h b e =
    let lo = h.none_below j b in
    let hi = h.none_above j b in
    let f : (t u : ℕ)
        → u ≡ raw
        → (t < raw → (u ≤ t) ⊎ (raw < u))
        → (raw < t → (u < raw) ⊎ (t ≤ u))
        → t ≡ raw =
      λ t u a b c. ground arith in
    f (corrected i) (corrected j) e lo hi

-- The lookup of any brightness ends with an index of the gamma table whose entry no other entry
-- separates from the brightness, so with the brightness itself where the table has it.
pub value_from_raw_brightness_lem :
    (raw_brightness : ℕ)
    → (i : ℕ) × (value_from_raw_brightness raw_brightness ≡ some i)
      × Nearest corrected 256 raw_brightness i
      × ((j : ℕ) → j < 256 → corrected j ≡ raw_brightness → corrected i ≡ raw_brightness)
unfolding value_from_raw_brightness
value_from_raw_brightness_lem raw =
    let r =
      found corrected 256 raw corrected_sorted _ (
        search-Finds corrected 256 raw corrected_sorted 256 0 256 0 (at_start raw)
          (ground arith)) in
    (r.0, r.1, r.2, λ j b e. exact raw r.0 j r.2 b e)
