-- ===== src/Aeb/Range.antt =====
-- What `min_forward_range` of aeb_math.py returns.
use rover_mind.Prelude.{
  ℕ, zero, suc, ◌+◌, ◌≡◌, refl, true, false, sym, ap, ◌∙◌, ◌⊎◌, inl, inr, some, List, [], ◌∷◌,
  get_elem?, arith,
}
use rover_mind.Float.{Float}
use rover_mind.Float.Order.{le_refl, inf_not_nan}
use rover_mind.Aeb.{Scan, counts, consider, scan_loop, min_forward_range}

module _ {R : Type 0} ⦃f : Float R⦄ (s : Scan R) (half : R) where
  open f use {le, lt, is_nan}

  consider-le :
      (i : ℕ) (nearest r : R)
      → is_nan nearest ≡ false
      → le (consider s half i nearest r) nearest ≡ true
  unfolding consider
  consider-le i nearest r h = ground (arith, le_refl nearest h, f.lt→le r nearest)

  counts_finite : (i : ℕ) (r : R) → counts s half i r ≡ true → f.is_finite r ≡ true
  unfolding counts
  counts_finite i r c = ground arith

  -- A counted reading is an upper bound after its round.
  consider-le_counted :
      (i : ℕ) (nearest r : R)
      → is_nan nearest ≡ false
      → counts s half i r ≡ true
      → le (consider s half i nearest r) r ≡ true
  unfolding consider
  consider-le_counted i nearest r h c =
      let number : is_nan r ≡ false = f.finite_not_nan r (counts_finite i r c) in
      ground (arith, le_refl r number, f.not_lt→le r nearest number h)

  scan_loop-le :
      (i : ℕ) (nearest : R) (rs : List R)
      → is_nan nearest ≡ false
      → le (scan_loop s half i nearest rs) nearest ≡ true
  unfolding scan_loop
  scan_loop-le i nearest [] h = le_refl nearest h
  scan_loop-le i nearest (r ∷ rs) h =
      let next : le (consider s half i nearest r) nearest ≡ true = consider-le i nearest r h in
      f.le_trans _ _ _
        (scan_loop-le (i + 1) (consider s half i nearest r) rs (f.le_not_nan _ _ next)) next

  scan_loop-le_counted :
      (i k j : ℕ) (nearest r : R) (rs : List R)
      → i + k ≡ j
      → is_nan nearest ≡ false
      → get_elem? rs k ≡ some r
      → counts s half j r ≡ true
      → le (scan_loop s half i nearest rs) r ≡ true
  unfolding scan_loop
  scan_loop-le_counted i k j nearest r [] e h at c = cc
  scan_loop-le_counted i zero j nearest r (x ∷ rs) e h at c =
      let here : i ≡ j = omega arith in
      let same : x ≡ r = cc in
      let seen : le (consider s half i nearest x) r ≡ true =
        rw (here, same) (consider-le_counted j nearest r h c) in
      f.le_trans _ _ _
        (scan_loop-le (i + 1) (consider s half i nearest x) rs (f.le_not_nan _ _ seen)) seen
  scan_loop-le_counted i (suc k) j nearest r (x ∷ rs) e h at c =
      scan_loop-le_counted (i + 1) k j (consider s half i nearest x) r rs (omega arith)
        (f.le_not_nan _ _ (consider-le i nearest x h)) at c

  -- `v` stands in `rs`, whose first reading has the index i, and is counted there.
  abbrev pub IsCounted : ℕ → List R → R → Type 0
  IsCounted i rs v =
      (k : ℕ) × (j : ℕ) × (i + k ≡ j) × (get_elem? rs k ≡ some v) × (counts s half j v ≡ true)

  consider-cases :
      (i : ℕ) (nearest x : R)
      → (consider s half i nearest x ≡ nearest)
        ⊎ ((counts s half i x ≡ true) × (consider s half i nearest x ≡ x))
  unfolding consider
  consider-cases i nearest x = ground arith

  IsCounted-cons : (i : ℕ) (x v : R) (rs : List R) → IsCounted (i + 1) rs v → IsCounted i (x ∷ rs) v
  IsCounted-cons i x v rs (k, j, e, at, c) = (suc k, j, omega arith, at, c)

  -- Where the loop's result comes from: the value it began with, or a counted reading.
  scan_loop_attained :
      (i : ℕ) (nearest : R) (rs : List R)
      → (scan_loop s half i nearest rs ≡ nearest) ⊎ IsCounted i rs (scan_loop s half i nearest rs)
  unfolding scan_loop
  scan_loop_attained i nearest [] = inl refl
  scan_loop_attained i nearest (x ∷ rs) =
      elim (scan_loop_attained (i + 1) (consider s half i nearest x) rs) [
        | inr later ↦ inr (IsCounted-cons i x _ rs later)
        | inl same ↦ elim (consider-cases i nearest x) [
          | inl kept ↦ inl (same ∙ kept)
          | inr (c, taken) ↦
              inr (0, i, omega arith, ap some (sym (same ∙ taken)), rw (same ∙ taken) c)
        ]
      ]

  -- The forward range is at most every reading that counts: no obstacle in the arc is passed over.
  pub min_forward_range-le :
      (i : ℕ) (r : R)
      → get_elem? s.ranges i ≡ some r
      → counts s half i r ≡ true
      → le (min_forward_range s half) r ≡ true
  unfolding min_forward_range
  min_forward_range-le i r at c =
      scan_loop-le_counted 0 i i f.inf r s.ranges (omega arith) (inf_not_nan R) at c

  -- The forward range is infinite, or it is itself a reading of the scan that counts.
  pub min_forward_range_attained :
      (min_forward_range s half ≡ f.inf) ⊎ IsCounted 0 s.ranges (min_forward_range s half)
  unfolding min_forward_range
  min_forward_range_attained = scan_loop_attained 0 f.inf s.ranges
