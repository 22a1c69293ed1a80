-- ===== src/Perception/Vision.antt =====
-- One look through the camera (capture_and_analyze of perception/vision_tool.py). The camera, the
-- vision model and the depth camera are parameters: calls that may change the world and may raise.
pub mod Consistent
use rover_mind.Prelude.{
  String, ◌≡◌, Bool, true, false, not, Option, none, some, List, [], ◌∷◌, if◌then◌else◌, concat,
  map,
}
use rover_mind.Prelude.Io.{Io, Result, ok, err, pure, lift, ◌>>=◌, ◌>>◌}
use rover_mind.Prelude.Text.{Unicode}
use rover_mind.Float.{Float}
use rover_mind.Perception.{SceneObservation, parse_yes_no, build_observation}
use rover_mind.Perception.Depth.{
  sample_depth_patch, depth_to_distance_bucket, close_max_m, medium_max_m,
}

-- `capture_fn`, `moondream.ask`, `moondream.point` and `depth_fn`, which may be missing.
pub record Camera (R W Image : Type 0) : Type 0 where
  pub capture : Io W Image
  pub ask : Image → String → Io W String
  pub point : Image → String → Io W (Option (R × R))
  pub depth : Option (Io W (List (List R)))

unfoldable pub visible_question : String → String
visible_question target = concat ("Is there a " ∷ target ∷ " in this image? Answer yes or no." ∷ [])

unfoldable pub direction_question : String → String
direction_question target =
    concat ("Is the " ∷ target ∷ " on the left, in the center, or on the right of the image?" ∷ [])

unfoldable pub distance_question : String → String
distance_question target =
    concat ("Is the " ∷ target ∷ " close, at a medium distance, or far away?" ∷ [])

module _ (u : Unicode) {R W Image : Type 0} ⦃f : Float R⦄ (camera : Camera R W Image)
    (target : String) where
  open camera use {capture, ask, point, depth}

  -- The last question, where no depth was measured.
  unfoldable pub ask_distance : Image → String → String → Io W (SceneObservation R)
  unfolding build_observation distance_question
  ask_distance image visible direction = do
    distance ← ask image (distance_question target)
    pure (build_observation u target visible direction distance none none "vlm")

  -- The branch on the bucket that the depth samples gave.
  unfoldable pub with_bucket :
      Image → String → String → Option String × Option R → Io W (SceneObservation R)
  unfolding build_observation ask_distance
  with_bucket image visible direction (none, distance_m) = ask_distance image visible direction
  with_bucket image visible direction (some bucket, distance_m) =
      pure (build_observation u target visible direction "" (some bucket) distance_m "depth")

  -- The two lines after `depth_fn()`.
  unfoldable pub sampled :
      Image → String → String → R → R → List (List R) → Io W (SceneObservation R)
  unfolding with_bucket sample_depth_patch depth_to_distance_bucket
  sampled image visible direction x_norm y_norm depth_mm = do
    samples ← lift (sample_depth_patch depth_mm x_norm y_norm 2)
    with_bucket image visible direction
        (depth_to_distance_bucket close_max_m medium_max_m (map some samples))

  -- The branch on the point at which the model sees the target.
  unfoldable pub at_point :
      Image → String → String → Io W (List (List R)) → Option (R × R) → Io W (SceneObservation R)
  unfolding sampled ask_distance
  at_point image visible direction depth_fn none = ask_distance image visible direction
  at_point image visible direction depth_fn (some (x_norm, y_norm)) =
      depth_fn >>= sampled image visible direction x_norm y_norm

  -- The branch on `depth_fn`.
  unfoldable pub measure_by :
      Image → String → String → Option (Io W (List (List R))) → Io W (SceneObservation R)
  unfolding at_point ask_distance
  measure_by image visible direction none = ask_distance image visible direction
  measure_by image visible direction (some depth_fn) =
      point image target >>= at_point image visible direction depth_fn

  unfoldable pub measure : Image → String → String → Io W (SceneObservation R)
  unfolding measure_by
  measure image visible direction = measure_by image visible direction depth

  -- The branch on the answer to the first question.
  unfoldable pub see : Image → String → Io W (SceneObservation R)
  unfolding measure build_observation direction_question parse_yes_no
  see image visible =
      if not (parse_yes_no u visible)
      then pure (build_observation u target visible "" "" none none "vlm")
      else (do direction ← ask image (direction_question target); measure image visible direction)

  unfoldable pub capture_and_analyze : Io W (SceneObservation R)
  unfolding see visible_question
  capture_and_analyze = do
    image ← capture
    visible ← ask image (visible_question target)
    see image visible
