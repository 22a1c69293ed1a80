-- ===== src/Perception/Depth.antt =====
-- Depth samples to distance buckets (perception/depth_math.py).
mod Sorting
pub mod Bucket
pub mod Patch
use rover_mind.Prelude.{
  ℕ, zero, suc, ◌+◌, ◌-◌, ◌*◌, ◌/◌, ◌%◌, String, ◌≡◌, Bool, true, false, ◌&&◌, Option, none, some,
  List, [], ◌∷◌, ◌++◌, if◌then◌else◌, ◌==◌, ltb, length, get_elem?,
}
use rover_mind.Prelude.Int.{ℤ, pos, pos_part, neg_part, ◌+ℤ◌, ◌-ℤ◌, leb_ℤ, ltb_ℤ}
use rover_mind.Prelude.Io.{Result, ok, err, exception}
use rover_mind.Float.{Float, nought}

abbrev out_of_range : {A : Type 0} → Result A
out_of_range = err (exception "IndexError" "list index out of range")

-- `min(size - 1, max(0, n))`
pub clamp_index : ℕ → ℤ → ℤ
unfolding ◌-ℤ◌
clamp_index size n =
    let low = if ltb_ℤ (pos 0) n then n else pos 0 in
    let last = pos size -ℤ pos 1 in if ltb_ℤ low last then low else last

-- The count integers from `start` on.
range_from : ℤ → ℕ → List ℤ
unfolding ◌+ℤ◌
range_from start zero = []
range_from start (suc count) = start ∷ range_from (start +ℤ pos 1) count

-- `range(c - radius, c + radius + 1)`
patch_range : ℤ → ℕ → List ℤ
unfolding range_from ◌-ℤ◌
patch_range c radius = range_from (c -ℤ pos radius) (2 * radius + 1)

-- `0 <= yy < height and 0 <= xx < width`
in_bounds : ℕ → ℕ → ℤ → ℤ → Bool
in_bounds height width yy xx =
    (leb_ℤ (pos 0) yy && ltb_ℤ yy (pos height)) && (leb_ℤ (pos 0) xx && ltb_ℤ xx (pos width))

infixl 5 ◌>>=◌
abbrev ◌>>=◌ : {A B : Type 0} → Result A → (A → Result B) → Result B
ok a >>= k = k a
err e >>= k = err e

module _ {R : Type 0} ⦃f : Float R⦄ where
  open f use {lt, le, lit, add, mul, quot, is_finite, is_nan}

  abbrev pub close_max_m : R
  close_max_m = lit 6 1

  abbrev pub medium_max_m : R
  medium_max_m = lit 15 1

  -- The generator's filter: a sample that is there, finite and positive.
  pub valid_samples : List (Option R) → List R
  valid_samples [] = []
  valid_samples (none ∷ ds) = valid_samples ds
  valid_samples (some d ∷ ds) =
      let rest = valid_samples ds in if is_finite d && lt nought d then d ∷ rest else rest

  pub insert : R → List R → List R
  insert d [] = d ∷ []
  insert d (e ∷ es) = let rest = insert d es in if lt e d then e ∷ rest else d ∷ e ∷ es

  -- `sorted(...)`: the ascending order of numbers that are all comparable.
  pub sorted : List R → List R
  unfolding insert
  sorted [] = []
  sorted (d ∷ ds) = insert d (sorted ds)

  abbrev get_or : List R → ℕ → R → R
  get_or [] i d = d
  get_or (x ∷ xs) zero d = x
  get_or (x ∷ xs) (suc i) d = get_or xs i d

  -- The middle of a list that is not empty, so that no index is out of range.
  pub middle : List R → R
  middle valid =
      let n = length valid in
      if n % 2 == 1
      then get_or valid (n / 2) nought
      else quot (add (get_or valid (n / 2 - 1) nought) (get_or valid (n / 2) nought)) (lit 20 1)

  pub classify : R → R → R → String
  classify close_max medium_max median =
      if le median close_max then "close" else if le median medium_max then "medium" else "far"

  summarise : R → R → List R → Option String × Option R
  unfolding classify middle
  summarise close_max medium_max [] = (none, none)
  summarise close_max medium_max (d ∷ ds) =
      let median = middle (d ∷ ds) in (some (classify close_max medium_max median), some median)

  unfoldable pub depth_to_distance_bucket : R → R → List (Option R) → Option String × Option R
  unfolding summarise sorted valid_samples
  depth_to_distance_bucket close_max medium_max values =
      summarise close_max medium_max (sorted (valid_samples values))

  -- `round(x)`, which raises at NaN and at the infinities.
  round_int : R → Result ℤ
  round_int x = elim (f.round x) [
    | some n ↦ ok n
    | none ↦
        if is_nan x
        then err (exception "ValueError" "cannot convert float NaN to integer")
        else err (exception "OverflowError" "cannot convert float infinity to integer")
  ]

  cell_at : List (List R) → ℤ → ℤ → Result R
  cell_at grid yy xx = elim (get_elem? grid (pos_part yy)) [
    | none ↦ out_of_range
    | some row ↦ elim (get_elem? row (pos_part xx)) [ none ↦ out_of_range | some v ↦ ok v ]
  ]

  -- The inner loop of `sample_depth_patch`, over one row of the patch.
  patch_row : List (List R) → ℕ → ℕ → ℤ → List ℤ → Result (List R)
  unfolding cell_at
  patch_row grid height width yy [] = ok []
  patch_row grid height width yy (xx ∷ xxs) =
      let rest = patch_row grid height width yy xxs in
      if in_bounds height width yy xx
      then (do v ← cell_at grid yy xx; vs ← rest; ok (quot v (lit 10000 1) ∷ vs))
      else rest

  patch_rows : List (List R) → ℕ → ℕ → List ℤ → List ℤ → Result (List R)
  unfolding patch_row
  patch_rows grid height width xxs [] = ok []
  patch_rows grid height width xxs (yy ∷ yys) =
      let rest = patch_rows grid height width xxs yys in
      do vs ← patch_row grid height width yy xxs; ws ← rest; ok (vs ++ ws)

  unfoldable pub sample_depth_patch : List (List R) → R → R → ℕ → Result (List R)
  unfolding patch_rows patch_range round_int clamp_index in_bounds
  sample_depth_patch [] x_norm y_norm radius = out_of_range
  sample_depth_patch (row ∷ rows) x_norm y_norm radius = do
    let height = length (row ∷ rows)
    let width = length row
    nx ← round_int (mul x_norm (f.of_int (pos width -ℤ pos 1)))
    ny ← round_int (mul y_norm (f.of_int (pos height -ℤ pos 1)))
    let cx = clamp_index width nx
    let cy = clamp_index height ny
    patch_rows (row ∷ rows) height width (patch_range cx radius) (patch_range cy radius)
