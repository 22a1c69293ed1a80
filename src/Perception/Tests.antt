-- ===== src/Perception/Tests.antt =====
-- The perception code on concrete answers and on a small depth image.
use mathlib.Core.Bool.{xor}
use rover_mind.Prelude.{
  ℕ, ◌+◌, ◌*◌, String, ◌≡◌, refl, ◌⊎◌, ◌↔◌, Bool, true, false, ◌&&◌, ◌||◌, Option, none, some, List,
  [], ◌∷◌, map, leb, ◌==◌, if◌then◌else◌, length, All,
}
use rover_mind.Prelude.Int.{pos}
use rover_mind.Prelude.Io.{Io, Result, ok, err, pure, raise, exception, Ensures}
use rover_mind.Prelude.Text.{Unicode, codes, contains, starts_with}
use rover_mind.Prelude.Words.{has_word, HasWord}
use rover_mind.Float.{nought}
use rover_mind.Float.Fixed.{Fixed, num, nan, fixed_float}
use rover_mind.Perception.{
  lowered, parse_yes_no, parse_direction, parse_distance, build_observation,
}
use rover_mind.Perception.Parsing.{IsDistance, parse_yes_no_iff, parse_distance-IsDistance}
use rover_mind.Perception.Observation.{build_observation_lem}
use rover_mind.Perception.Depth.{
  close_max_m, medium_max_m, valid_samples, depth_to_distance_bucket, sample_depth_patch,
}
use rover_mind.Perception.Depth.Bucket.{FitsBucket, IsMedianOf, depth_to_distance_bucket_lem}
use rover_mind.Perception.Depth.Patch.{IsSample, sample_depth_patch-Samples}
use rover_mind.Perception.Vision.{Camera, capture_and_analyze}
use rover_mind.Perception.Vision.Consistent.{IsConsistent, capture_and_analyze-IsConsistent}

-- The tables on ASCII.
abbrev between : ℕ → ℕ → ℕ → Bool
between a b c = leb a c && leb c b

abbrev ascii : Unicode
ascii = record {
  lower = map (λ c. if between 65 90 c then c + 32 else c);
  is_word = λ c. between 97 122 c || (between 65 90 c || (between 48 57 c || c == 95));
  repr = λ text. text;
}

abbrev metres : ℕ → Fixed
metres n = num (pos (n * 1_000_000_000))

abbrev answer : String
answer = "Yes, nothing hides it."

yes_not_no : parse_yes_no ascii answer ≡ true
unfolding parse_yes_no has_word starts_with xor
yes_not_no = refl

reads_left : parse_direction ascii "To the LEFT." ≡ some "left"
unfolding parse_direction contains
reads_left = refl

reads_none : parse_distance ascii "Near, or far?" ≡ none
unfolding parse_distance contains
reads_none = refl

parse_yes_no_iff_example : (parse_yes_no ascii answer ≡ true) ↔ (
    HasWord ascii (codes "yes") (lowered ascii answer)
    × ¬ HasWord ascii (codes "no") (lowered ascii answer))
parse_yes_no_iff_example = parse_yes_no_iff ascii answer

parse_distance-IsDistance_example :
    IsDistance ascii "Near, or far?" (parse_distance ascii "Near, or far?")
parse_distance-IsDistance_example = parse_distance-IsDistance ascii "Near, or far?"

build_observation_lem_example :
    let o =
      build_observation ascii "cup" answer "left" "" (some "close") (some (metres 1)) "depth" in
    (o.found ≡ parse_yes_no ascii answer)
    × (o.found ≡ false
        → (o.direction ≡ none)
          × (o.distance ≡ none)
          × (o.should_stop ≡ false)
          × (o.distance_m ≡ none))
    × ((o.should_stop ≡ true) ↔ ((o.found ≡ true) × (o.distance ≡ some "close")))
build_observation_lem_example =
    build_observation_lem ascii "cup" answer "left" "" (some "close") (some (metres 1)) "depth"

-- A hole, a sample that is no number, and three good ones.
abbrev samples : List (Option Fixed)
samples = some (metres 3) ∷ some nought ∷ none ∷ some nan ∷ some (metres 1) ∷ some (metres 2) ∷ []

middle_sample :
    depth_to_distance_bucket close_max_m medium_max_m samples ≡ (some "far", some (metres 2))
unfolding depth_to_distance_bucket fixed_float
middle_sample = refl

depth_to_distance_bucket_lem_example :
    let r = depth_to_distance_bucket close_max_m medium_max_m samples in
    ((valid_samples samples ≡ []) × (r ≡ (none, none)))
    ⊎ ((b : String) × (d : Fixed) × (r ≡ (some b, some d))
        × IsMedianOf samples d
        × FitsBucket close_max_m medium_max_m d b)
depth_to_distance_bucket_lem_example = depth_to_distance_bucket_lem close_max_m medium_max_m samples

-- An image of two rows and three columns, in millimetres.
abbrev first_row : List Fixed
first_row = metres 400 ∷ metres 500 ∷ metres 450 ∷ []

abbrev image : List (List Fixed)
image = first_row ∷ (metres 0 ∷ metres 480 ∷ metres 490 ∷ []) ∷ []

abbrev half : Fixed
half = num (pos 500_000_000)

abbrev sample_count : Result (List Fixed) → ℕ
sample_count (ok vs) = length vs
sample_count (err e) = 0

whole_patch : sample_count (sample_depth_patch image half half 2) ≡ 6
unfolding sample_depth_patch fixed_float
whole_patch = refl

sample_depth_patch-Samples_example :
    (vs : List Fixed) × (sample_depth_patch image half half 1 ≡ ok vs) × All (IsSample image) vs
unfolding fixed_float
sample_depth_patch-Samples_example =
    sample_depth_patch-Samples first_row ((metres 0 ∷ metres 480 ∷ metres 490 ∷ []) ∷ []) half half
      1 (pos 1) (pos 1) (refl, (refl, tt)) refl refl

-- A camera that answers every question with one text, and counts the questions.
abbrev one_answer : String → Option (Io ℕ (List (List Fixed))) → Camera Fixed ℕ String
one_answer text depth_fn = record {
  capture = pure "frame";
  ask = λ frame question asked. (ok text, asked + 1);
  point = λ frame target. pure (some (half, half));
  depth = depth_fn;
}

abbrev seeing : Camera Fixed ℕ String
seeing = one_answer "yes, left and near" (some (pure image))

abbrev not_seeing : Camera Fixed ℕ String
not_seeing = one_answer "no" (some (raise (exception "FrameCaptureError" "no depth frame")))

two_questions : (capture_and_analyze ascii seeing "cup" 0).1 ≡ 2
unfolding capture_and_analyze has_word contains xor fixed_float
two_questions = refl

one_question : (capture_and_analyze ascii not_seeing "cup" 0).1 ≡ 1
unfolding capture_and_analyze has_word starts_with xor
one_question = refl

capture_and_analyze-IsConsistent_example :
    Ensures (IsConsistent "cup") (capture_and_analyze ascii seeing "cup" 0)
capture_and_analyze-IsConsistent_example = capture_and_analyze-IsConsistent ascii seeing "cup" 0
