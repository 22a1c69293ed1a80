-- ===== src/Perception/Vision/Consistent.antt =====
-- How the fields of an observation that a look returns belong together (perception/vision_tool.py).
use rover_mind.Prelude.{
  String, ◌≡◌, ◌↔◌, refl, ◌⊎◌, inl, inr, true, Option, none, some, List, arith, map, Bool-cases,
}
use rover_mind.Prelude.Io.{Io, Result, lift, pure, Ensures, Ensures-bind}
use rover_mind.Prelude.Text.{Unicode}
use rover_mind.Float.{Float}
use rover_mind.Perception.{SceneObservation, parse_yes_no, build_observation}
use rover_mind.Perception.Observation.{build_observation_lem}
use rover_mind.Perception.Depth.{
  sample_depth_patch, depth_to_distance_bucket, close_max_m, medium_max_m,
}
use rover_mind.Perception.Depth.Bucket.{FitsBucket, depth_to_distance_bucket_lem}
use rover_mind.Perception.Vision.{
  Camera, ask_distance, with_bucket, sampled, at_point, measure_by, measure, see, visible_question,
  direction_question, distance_question, capture_and_analyze,
}

module _ {R : Type 0} ⦃f : Float R⦄ where
  -- The distance comes from the vision model, without metres, or from the depth camera, with metres
  -- that lie in the bucket.
  abbrev pub IsSourced : SceneObservation R → Type 0
  IsSourced o =
      ((o.distance_source ≡ "vlm") × (o.distance_m ≡ none))
      ⊎ ((o.distance_source ≡ "depth")
          × (o.found ≡ true)
          × ((b : String) × (d : R) × (o.distance ≡ some b)
              × (o.distance_m ≡ some d)
              × FitsBucket close_max_m medium_max_m d b))

  abbrev pub IsConsistent : String → SceneObservation R → Type 0
  IsConsistent target o =
      (o.target ≡ target)
      × IsSourced o
      × ((o.should_stop ≡ true) ↔ ((o.found ≡ true) × (o.distance ≡ some "close")))

  module _ (u : Unicode) (target visible direction : String) where
    asked-IsConsistent :
        (distance : String)
        → IsConsistent target
            (build_observation u target visible direction distance none none "vlm")
    unfolding build_observation
    asked-IsConsistent distance =
        let (a, b, c) =
          build_observation_lem {R = R} u target visible direction distance none none "vlm" in
        elim (Bool-cases (parse_yes_no u visible)) [
          | inl seen ↦ (ground arith, inl (ground arith, ground arith), c)
          | inr unseen ↦ (ground arith, inl (ground arith, ground arith), c)
        ]

    measured-IsConsistent :
        (b : String) (d : R)
        → FitsBucket close_max_m medium_max_m d b
        → parse_yes_no u visible ≡ true
        → IsConsistent target
            (build_observation u target visible direction "" (some b) (some d) "depth")
    unfolding build_observation
    measured-IsConsistent b d fits seen =
        let (x, y, c) =
          build_observation_lem u target visible direction "" (some b) (some d) "depth" in
        (
          ground arith,
          inr (ground arith, ground arith, (b, d, ground arith, ground arith, fits)),
          c,
        )

module _ (u : Unicode) {R W Image : Type 0} ⦃f : Float R⦄ (camera : Camera R W Image)
    (target : String) where
  abbrev Consistent : SceneObservation R → Type 0
  Consistent = IsConsistent target

  abbrev Fine : Result (SceneObservation R) × W → Type 0
  Fine r = Ensures Consistent r

  ask_distance-Fine :
      (image : Image) (visible direction : String) (w : W)
      → Fine (ask_distance u camera target image visible direction w)
  unfolding ask_distance
  ask_distance-Fine image visible direction w =
      Ensures-bind Consistent (camera.ask image (distance_question target))
        (λ distance. pure (build_observation u target visible direction distance none none "vlm")) w
        (λ distance v. asked-IsConsistent {R = R} u target visible direction distance)

  with_bucket-Fine :
      (image : Image) (visible direction : String) (samples : List R) (w : W)
      → parse_yes_no u visible ≡ true
      → Fine (
          with_bucket u camera target image visible direction
            (depth_to_distance_bucket close_max_m medium_max_m (map some samples))
            w)
  unfolding with_bucket
  with_bucket-Fine image visible direction samples w seen =
      elim (depth_to_distance_bucket_lem close_max_m medium_max_m (map some samples)) [
        | inl (empty, e) ↦ rw e (ask_distance-Fine image visible direction w)
        | inr (b, d, e, median, fits) ↦
            rw e (measured-IsConsistent u target visible direction b d fits seen)
      ]

  sampled-Fine :
      (image : Image) (visible direction : String) (x y : R) (grid : List (List R)) (w : W)
      → parse_yes_no u visible ≡ true
      → Fine (sampled u camera target image visible direction x y grid w)
  unfolding sampled
  sampled-Fine image visible direction x y grid w seen =
      Ensures-bind Consistent (lift (sample_depth_patch grid x y 2)) _ w
        (λ samples t. with_bucket-Fine image visible direction samples t seen)

  at_point-Fine :
      (image : Image) (visible direction : String) (depth_fn : Io W (List (List R)))
      (p : Option (R × R)) (w : W)
      → parse_yes_no u visible ≡ true
      → Fine (at_point u camera target image visible direction depth_fn p w)
  unfolding at_point
  at_point-Fine image visible direction depth_fn none w seen =
      ask_distance-Fine image visible direction w
  at_point-Fine image visible direction depth_fn (some (x, y)) w seen =
      Ensures-bind Consistent depth_fn _ w
        (λ depth_mm v. sampled-Fine image visible direction x y depth_mm v seen)

  measure_by-Fine :
      (image : Image) (visible direction : String) (depth : Option (Io W (List (List R)))) (w : W)
      → parse_yes_no u visible ≡ true
      → Fine (measure_by u camera target image visible direction depth w)
  unfolding measure_by
  measure_by-Fine image visible direction none w seen = ask_distance-Fine image visible direction w
  measure_by-Fine image visible direction (some depth_fn) w seen =
      Ensures-bind Consistent (camera.point image target) _ w
        (λ p v. at_point-Fine image visible direction depth_fn p v seen)

  measure-Fine :
      (image : Image) (visible direction : String) (w : W)
      → parse_yes_no u visible ≡ true
      → Fine (measure u camera target image visible direction w)
  unfolding measure
  measure-Fine image visible direction w seen =
      measure_by-Fine image visible direction camera.depth w seen

  see-Fine : (image : Image) (visible : String) (w : W) → Fine (see u camera target image visible w)
  unfolding see
  see-Fine image visible w = elim (Bool-cases (parse_yes_no u visible)) [
    | inr unseen ↦ rw unseen (refl, inl (refl, refl), ground arith)
    | inl seen ↦ rw seen (
        Ensures-bind Consistent (camera.ask image (direction_question target)) _ w
          (λ direction v. measure-Fine image visible direction v seen))
  ]

  -- Whatever the camera, the vision model and the depth camera do: an observation that a look
  -- returns is of the target; it carries metres exactly where its distance comes from the depth
  -- camera, and then the target was seen and the bucket is the one in which the metres lie; and it
  -- asks for a stop exactly where the target was seen close.
  pub capture_and_analyze-IsConsistent :
      (w : W) → Ensures (IsConsistent target) (capture_and_analyze u camera target w)
  unfolding capture_and_analyze
  capture_and_analyze-IsConsistent w = Ensures-bind Consistent camera.capture _ w (λ image v.
      Ensures-bind Consistent (camera.ask image (visible_question target)) _ v
        (λ visible t. see-Fine image visible t))
