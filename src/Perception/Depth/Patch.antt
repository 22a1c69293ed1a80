-- ===== src/Perception/Depth/Patch.antt =====
-- The indices of the depth patch (sample_depth_patch of perception/depth_math.py).
use rover_mind.Prelude.{
  ℕ, zero, suc, ◌<◌, ◌≡◌, refl, inl, inr, true, some, List, [], ◌∷◌, ◌++◌, arith, length, get_elem?,
  All, All-append, Bool-cases,
}
use rover_mind.Prelude.Int.{ℤ, pos, pos_part, ◌-ℤ◌}
use rover_mind.Prelude.Io.{Result, ok, err}
use rover_mind.Float.{Float}
use rover_mind.Perception.Depth.{
  ◌>>=◌, in_bounds, cell_at, patch_row, patch_rows, patch_range, round_int, clamp_index,
  sample_depth_patch,
}

module _ {R : Type 0} where
  -- Every row of the image has the width.
  abbrev pub IsImage : ℕ → List (List R) → Type 0
  IsImage width rows = All (λ row. length row ≡ width) rows

  -- The value is a cell of the image.
  abbrev pub IsCell : List (List R) → R → Type 0
  IsCell grid v =
      (y : ℕ) × (x : ℕ) × (row : List R) × (get_elem? grid y ≡ some row)
      × (get_elem? row x ≡ some v)

  in_range : (xs : List R) (i : ℕ) → i < length xs → (v : R) × (get_elem? xs i ≡ some v)
  in_range [] i h = absurd (omega arith)
  in_range (x ∷ xs) zero h = (x, refl)
  in_range (x ∷ xs) (suc i) h = in_range xs i (omega arith)

  row_at :
      (width : ℕ) (grid : List (List R)) (y : ℕ)
      → IsImage width grid
      → y < length grid
      → (row : List R) × (get_elem? grid y ≡ some row) × (length row ≡ width)
  row_at width [] y im h = absurd (omega arith)
  row_at width (row ∷ grid) zero im h = (row, refl, im.0)
  row_at width (row ∷ grid) (suc y) im h = row_at width grid y im.1 (omega arith)

inside_y : (h w : ℕ) (y x : ℤ) → in_bounds h w y x ≡ true → pos_part y < h
unfolding in_bounds
inside_y h w y x b = ground arith

inside_x : (h w : ℕ) (y x : ℤ) → in_bounds h w y x ≡ true → pos_part x < w
unfolding in_bounds
inside_x h w y x b = ground arith

module _ {R : Type 0} ⦃f : Float R⦄ (grid : List (List R)) where
  -- A sample is a cell of the image, in metres.
  abbrev pub IsSample : R → Type 0
  IsSample s = (v : R) × IsCell grid v × (s ≡ f.quot v (f.lit 10000 1))

  abbrev Samples : Result (List R) → Type 0
  Samples (ok vs) = All IsSample vs
  Samples (err e) = ⊥

  Samples-cons :
      (s : R) (r : Result (List R)) → IsSample s → Samples r → Samples (r >>= λ vs. ok (s ∷ vs))
  Samples-cons s (ok vs) h hs = (h, hs)
  Samples-cons s (err e) h hs = hs

  Samples-append :
      (r q : Result (List R))
      → Samples r
      → Samples q
      → Samples (r >>= λ vs. q >>= λ ws. ok (vs ++ ws))
  Samples-append (ok vs) (ok ws) h k = All-append IsSample vs ws h k
  Samples-append (ok vs) (err e) h k = k
  Samples-append (err e) q h k = h

  Samples-ok : (r : Result (List R)) → Samples r → (vs : List R) × (r ≡ ok vs) × All IsSample vs
  Samples-ok (ok vs) h = (vs, refl, h)
  Samples-ok (err e) h = absurd h

module _ {R : Type 0} ⦃f : Float R⦄ (grid : List (List R)) (width : ℕ)
    (im : IsImage width grid) where
  cell_at_inside :
      (yy xx : ℤ)
      → in_bounds (length grid) width yy xx ≡ true
      → (v : R) × (cell_at grid yy xx ≡ ok v) × IsCell grid v
  unfolding cell_at
  cell_at_inside yy xx b =
      let (row, r, w) = row_at width grid (pos_part yy) im (inside_y (length grid) width yy xx b) in
      let low : pos_part xx < length row = rw w (inside_x (length grid) width yy xx b) in
      let (v, c) = in_range row (pos_part xx) low in
      (v, ground arith, (pos_part yy, pos_part xx, row, r, c))

  patch_row-Samples :
      (yy : ℤ) (xxs : List ℤ) → Samples grid (patch_row grid (length grid) width yy xxs)
  unfolding patch_row
  patch_row-Samples yy [] = tt
  patch_row-Samples yy (xx ∷ xxs) = elim (Bool-cases (in_bounds (length grid) width yy xx)) [
    | inr out ↦ rw out (patch_row-Samples yy xxs)
    | inl b ↦
        let (v, read, cell) = cell_at_inside yy xx b in
        rw (b, read)
          (Samples-cons grid (f.quot v (f.lit 10000 1)) (patch_row grid (length grid) width yy xxs)
            (v, cell, refl) (patch_row-Samples yy xxs))
  ]

  patch_rows-Samples :
      (xxs yys : List ℤ) → Samples grid (patch_rows grid (length grid) width xxs yys)
  unfolding patch_rows
  patch_rows-Samples xxs [] = tt
  patch_rows-Samples xxs (yy ∷ yys) =
      Samples-append grid (patch_row grid (length grid) width yy xxs)
        (patch_rows grid (length grid) width xxs yys) (patch_row-Samples yy xxs)
        (patch_rows-Samples xxs yys)

module _ {R : Type 0} ⦃f : Float R⦄ where
  round_int-some : (x : R) (n : ℤ) → f.round x ≡ some n → round_int x ≡ ok n
  unfolding round_int
  round_int-some x n h = ground arith

  -- In an image whose rows are all of one width, and at a point that can be rounded, the sampling
  -- never indexes outside the image: it returns, and every sample is a cell of it in metres.
  pub sample_depth_patch-Samples :
      (row : List R) (rows : List (List R)) (x_norm y_norm : R) (radius : ℕ) (nx ny : ℤ)
      → IsImage (length row) (row ∷ rows)
      → f.round (f.mul x_norm (f.of_int (pos (length row) -ℤ pos 1))) ≡ some nx
      → f.round (f.mul y_norm (f.of_int (pos (length (row ∷ rows)) -ℤ pos 1))) ≡ some ny
      → (vs : List R) × (sample_depth_patch (row ∷ rows) x_norm y_norm radius ≡ ok vs)
        × All (IsSample (row ∷ rows)) vs
  unfolding sample_depth_patch
  sample_depth_patch-Samples row rows x_norm y_norm radius nx ny im hx hy =
      rw (round_int-some _ nx hx, round_int-some _ ny hy)
        (Samples-ok (row ∷ rows) _ (
          patch_rows-Samples (row ∷ rows) (length row) im
            (patch_range (clamp_index (length row) nx) radius)
            (patch_range (clamp_index (length (row ∷ rows)) ny) radius)))
