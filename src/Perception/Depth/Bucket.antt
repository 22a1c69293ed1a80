-- ===== src/Perception/Depth/Bucket.antt =====
-- The distance bucket of the depth samples (depth_to_distance_bucket of perception/depth_math.py).
use mathlib.Core.List.{Perm}
use mathlib.Core.List.Perm
use rover_mind.Prelude.{
  String, ◌≡◌, ◌≢◌, refl, sym, ◌⊎◌, inl, inr, true, false, List, [], ◌∷◌, arith, All, Option, none,
  some,
}
use rover_mind.Float.{Float, nought}
use rover_mind.Perception.Depth.{
  sorted, valid_samples, middle, classify, summarise, depth_to_distance_bucket,
}
use rover_mind.Perception.Depth.Sorting.{
  IsSorted, sorted-perm, valid_samples-All, valid_samples-IsSorted,
}

module _ {R : Type 0} ⦃f : Float R⦄ where
  open f use {lt, le, is_finite}

  -- The bucket says where the distance lies between the two thresholds.
  abbrev pub FitsBucket : R → R → R → String → Type 0
  FitsBucket close_max medium_max d b =
      ((b ≡ "close") × (le d close_max ≡ true))
      ⊎ (((b ≡ "medium") × (le d close_max ≡ false) × (le d medium_max ≡ true))
          ⊎ ((b ≡ "far") × (le d close_max ≡ false) × (le d medium_max ≡ false)))

  classify-FitsBucket :
      (close_max medium_max d : R)
      → FitsBucket close_max medium_max d (classify close_max medium_max d)
  unfolding classify
  classify-FitsBucket close_max medium_max d = ground arith

  abbrev pub IsMedianOf : List (Option R) → R → Type 0
  IsMedianOf ds d =
      (v : List R) × (v ≢ [])
      × Perm v (valid_samples ds)
      × IsSorted v
      × All (λ x. (is_finite x ≡ true) × (lt nought x ≡ true)) (valid_samples ds)
      × (d ≡ middle v)

  summarise-cases :
      (close_max medium_max : R) (v : List R)
      → ((v ≡ []) × (summarise close_max medium_max v ≡ (none, none)))
        ⊎ ((v ≢ [])
            × (summarise close_max medium_max v
                ≡ (some (classify close_max medium_max (middle v)), some (middle v))))
  unfolding summarise
  summarise-cases close_max medium_max [] = inl (refl, refl)
  summarise-cases close_max medium_max (d ∷ ds) = inr (λ e. cc, refl)

  -- Without a valid sample there is no bucket and no distance. Otherwise both are given: the distance
  -- is the middle of an ascending arrangement of the valid samples, which are finite and positive,
  -- and the bucket is the one of the three in which the distance lies.
  pub depth_to_distance_bucket_lem :
      (close_max medium_max : R) (ds : List (Option R))
      → let r = depth_to_distance_bucket close_max medium_max ds in
        ((valid_samples ds ≡ []) × (r ≡ (none, none)))
        ⊎ ((b : String) × (d : R) × (r ≡ (some b, some d))
            × IsMedianOf ds d
            × FitsBucket close_max medium_max d b)
  depth_to_distance_bucket_lem close_max medium_max ds =
      elim (summarise-cases close_max medium_max (sorted (valid_samples ds))) [
        | inl (empty, e) ↦ inl (
          sym (Perm.nil-eq (rw empty at (sorted-perm (valid_samples ds)))),
          unfold depth_to_distance_bucket in e,
        )
        | inr (full, e) ↦
            let v : List R = sorted (valid_samples ds) in
            inr (
              classify close_max medium_max (middle v),
              middle v,
              unfold depth_to_distance_bucket in e,
              (
                v,
                full,
                sorted-perm (valid_samples ds),
                valid_samples-IsSorted ds,
                valid_samples-All ds,
                refl,
              ),
              classify-FitsBucket close_max medium_max (middle v),
            )
      ]
