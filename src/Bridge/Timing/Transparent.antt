-- ===== src/Bridge/Timing/Transparent.antt =====
-- A look through the timing proxy beside a look without it (bridge/timing.py).
use rover_mind.Prelude.{
  ℕ, String, ◌≡◌, refl, subst, inl, inr, Option, none, some, List, map, Bool-cases,
}
use rover_mind.Prelude.Io.{Io, Result, ok, err, pure, lift, continued, ◌>>=◌}
use rover_mind.Prelude.Text.{Unicode}
use rover_mind.Float.{Float}
use rover_mind.Perception.{parse_yes_no, build_observation}
use rover_mind.Perception.Depth.{
  sample_depth_patch, depth_to_distance_bucket, close_max_m, medium_max_m,
}
use rover_mind.Perception.Vision.{
  Camera, visible_question, direction_question, distance_question, ask_distance, with_bucket,
  sampled, at_point, measure_by, measure, see, capture_and_analyze,
}
use rover_mind.Bridge.Timing.{Timed, untimed, untimed_depth, timed_camera}

module _ {R W : Type 0} where
  -- The calls return the same, and leave the same world.
  abbrev pub Agrees : {A : Type 0} → Result A × Timed R W → Result A × W → Type 0
  Agrees r q = (r.0 ≡ q.0) × (r.1.world ≡ q.1)

  -- The same of every start.
  abbrev pub Simulates : {A : Type 0} → Io (Timed R W) A → Io W A → Type 0
  Simulates m n = (s : Timed R W) → Agrees (m s) (n s.world)

  after-Agrees :
      {A B : Type 0} (k : A → Io (Timed R W) B) (l : A → Io W B) (r : Result A) (s : Timed R W)
      → ((a : A) → Simulates (k a) (l a))
      → Agrees ((lift r >>= k) s) ((lift r >>= l) s.world)
  after-Agrees k l (ok a) s h = h a s
  after-Agrees k l (err e) s h = (refl, refl)

  bind-Simulates :
      {A B : Type 0} (m : Io (Timed R W) A) (n : Io W A) (k : A → Io (Timed R W) B) (l : A → Io W B)
      → Simulates m n
      → ((a : A) → Simulates (k a) (l a))
      → Simulates (m >>= k) (n >>= l)
  bind-Simulates {A} m n k l hm hk s =
      let (same, left) = hm s in
      subst (λ (p : Result A × W). Agrees ((m >>= k) s) (continued l p)) (λ i. (same i, left i))
        (after-Agrees k l (m s).0 (m s).1 hk)

  -- A call with no effect agrees with itself.
  pure-Simulates : {A : Type 0} (r : Result A) → Simulates (lift r) (lift r)
  pure-Simulates r s = (refl, refl)

module _ (u : Unicode) {R W Image : Type 0} ⦃f : Float R⦄ (clock : ℕ → R)
    (camera : Camera R W Image) (target : String) where
  abbrev proxy : Camera R (Timed R W) Image
  proxy = timed_camera u clock camera

  ask_distance-Simulates :
      (image : Image) (visible direction : String)
      → Simulates
          (ask_distance u proxy target image visible direction)
          (ask_distance u camera target image visible direction)
  unfolding ask_distance
  ask_distance-Simulates image visible direction =
      bind-Simulates (proxy.ask image (distance_question target))
        (camera.ask image (distance_question target))
        (λ distance. pure (build_observation u target visible direction distance none none "vlm"))
        (λ distance. pure (build_observation u target visible direction distance none none "vlm"))
        (λ s. (refl, refl)) (λ a s. (refl, refl))

  with_bucket-Simulates :
      (image : Image) (visible direction : String) (b : Option String × Option R)
      → Simulates
          (with_bucket u proxy target image visible direction b)
          (with_bucket u camera target image visible direction b)
  unfolding with_bucket
  with_bucket-Simulates image visible direction (none, d) s =
      ask_distance-Simulates image visible direction s
  with_bucket-Simulates image visible direction (some b, d) s = (refl, refl)

  sampled-Simulates :
      (image : Image) (visible direction : String) (x y : R) (grid : List (List R))
      → Simulates
          (sampled u proxy target image visible direction x y grid)
          (sampled u camera target image visible direction x y grid)
  unfolding sampled
  sampled-Simulates image visible direction x y grid =
      bind-Simulates (lift (sample_depth_patch grid x y 2)) (lift (sample_depth_patch grid x y 2))
        (λ samples.
          with_bucket u proxy target image visible direction
            (depth_to_distance_bucket close_max_m medium_max_m (map some samples)))
        (λ samples.
          with_bucket u camera target image visible direction
            (depth_to_distance_bucket close_max_m medium_max_m (map some samples)))
        (λ s. (refl, refl)) (λ samples. with_bucket-Simulates image visible direction _)

  at_point-Simulates :
      (image : Image) (visible direction : String) (depth_fn : Io W (List (List R)))
      (p : Option (R × R))
      → Simulates
          (at_point u proxy target image visible direction (untimed clock depth_fn) p)
          (at_point u camera target image visible direction depth_fn p)
  unfolding at_point
  at_point-Simulates image visible direction depth_fn none =
      ask_distance-Simulates image visible direction
  at_point-Simulates image visible direction depth_fn (some (x, y)) =
      bind-Simulates (untimed clock depth_fn) depth_fn
        (sampled u proxy target image visible direction x y)
        (sampled u camera target image visible direction x y) (λ s. (refl, refl))
        (sampled-Simulates image visible direction x y)

  measure_by-Simulates :
      (image : Image) (visible direction : String) (depth : Option (Io W (List (List R))))
      → Simulates
          (measure_by u proxy target image visible direction (untimed_depth clock depth))
          (measure_by u camera target image visible direction depth)
  unfolding measure_by
  measure_by-Simulates image visible direction none = ask_distance-Simulates image visible direction
  measure_by-Simulates image visible direction (some depth_fn) =
      bind-Simulates (proxy.point image target) (camera.point image target)
        (at_point u proxy target image visible direction (untimed clock depth_fn))
        (at_point u camera target image visible direction depth_fn) (λ s. (refl, refl))
        (at_point-Simulates image visible direction depth_fn)

  see-Simulates :
      (image : Image) (visible : String)
      → Simulates (see u proxy target image visible) (see u camera target image visible)
  unfolding see measure
  see-Simulates image visible s = elim (Bool-cases (parse_yes_no u visible)) [
    | inr unseen ↦ rw unseen (refl, refl)
    | inl seen ↦ rw seen (
        bind-Simulates (proxy.ask image (direction_question target))
          (camera.ask image (direction_question target)) (measure u proxy target image visible)
          (measure u camera target image visible) (λ t. (refl, refl))
          (λ direction. measure_by-Simulates image visible direction camera.depth) s)
  ]

  -- A look through the timing proxy returns or raises what the look without it does, and leaves the
  -- same world, whatever the clock reads.
  pub capture_and_analyze-Agrees :
      (s : Timed R W)
      → Agrees (capture_and_analyze u proxy target s) (capture_and_analyze u camera target s.world)
  unfolding capture_and_analyze
  capture_and_analyze-Agrees =
      bind-Simulates proxy.capture camera.capture
        (λ image. proxy.ask image (visible_question target) >>= see u proxy target image)
        (λ image. camera.ask image (visible_question target) >>= see u camera target image)
        (λ s. (refl, refl))
        (λ image.
          bind-Simulates (proxy.ask image (visible_question target))
            (camera.ask image (visible_question target)) (see u proxy target image)
            (see u camera target image) (λ s. (refl, refl)) (see-Simulates image))
