-- ===== src/Perception.antt =====
-- From the vision model's free answers to a structured observation (perception/scene_parsing.py).
-- The directions and the distance buckets are the texts of the source's Literal types.
pub mod Parsing
pub mod Observation
pub mod Depth
pub mod Vision
pub mod Capture
pub mod Moondream
mod Tests
use rover_mind.Prelude.{
  ℕ, String, ◌≡◌, Bool, true, false, not, ◌&&◌, ◌||◌, Option, none, some, List, [], ◌∷◌,
  if◌then◌else◌, str_eq,
}
use rover_mind.Prelude.Text.{Unicode, codes, contains}
use rover_mind.Prelude.Words.{has_word}

-- `raw_answers`, a dict with these three keys.
pub record Answers : Type 0 where
  pub visible : String
  pub direction : String
  pub distance : String

pub record SceneObservation (R : Type 0) : Type 0 where
  pub target : String
  pub found : Bool
  pub direction : Option String
  pub distance : Option String
  pub should_stop : Bool
  pub raw_answers : Answers
  pub distance_m : Option R
  pub distance_source : String

-- `[name for name, found in present.items() if found]`
present_names : List (String × Bool) → List String
present_names [] = []
present_names ((name, found) ∷ rest) =
    let names = present_names rest in if found then name ∷ names else names

-- `matches[0] if len(matches) == 1`
only_match : List String → Option String
only_match [] = none
only_match (name ∷ []) = some name
only_match (name ∷ other ∷ rest) = none

abbrev is_close : Option String → Bool
is_close none = false
is_close (some d) = str_eq d "close"

module _ (u : Unicode) where
  -- `answer.lower()`
  abbrev pub lowered : String → List ℕ
  lowered answer = u.lower (codes answer)

  pub parse_yes_no : String → Bool
  parse_yes_no answer =
      let text = lowered answer in
      let has_yes = has_word u (codes "yes") text in
      let has_no = has_word u (codes "no") text in has_yes && not has_no

  pub parse_direction : String → Option String
  parse_direction answer =
      let text = lowered answer in
      let left = contains (codes "left") text in
      let right = contains (codes "right") text in
      let center =
        contains (codes "center") text
        || (contains (codes "centre") text || contains (codes "middle") text) in
      if center
      then some "center"
      else if left && right
      then none
      else if left
      then some "left"
      else if right
      then some "right"
      else none

  pub parse_distance : String → Option String
  unfolding present_names only_match
  parse_distance answer =
      let text = lowered answer in
      only_match (
        present_names (
          ("close", contains (codes "close") text || contains (codes "near") text)
          ∷ ("medium", contains (codes "medium") text || contains (codes "moderate") text)
          ∷ ("far", contains (codes "far") text || contains (codes "distant") text)
          ∷ []))

  -- `distance_override if distance_override is not None else parse_distance(...)`
  pick_distance : Option String → String → Option String
  unfolding parse_distance
  pick_distance (some d) answer = some d
  pick_distance none answer = parse_distance answer

  -- The three keyword arguments are the override, the metres and their source.
  pub build_observation :
      {R : Type 0}
      → String
      → String
      → String
      → String
      → Option String
      → Option R
      → String
      → SceneObservation R
  unfolding parse_yes_no parse_direction pick_distance
  build_observation target visible direction distance distance_override distance_m source =
      let raw : Answers = record {
        visible = visible;
        direction = direction;
        distance = distance;
      } in
      let bucket = pick_distance distance_override distance in
      if not (parse_yes_no visible)
      then record {
        target = target;
        found = false;
        direction = none;
        distance = none;
        should_stop = false;
        raw_answers = raw;
        distance_m = none;
        distance_source = "vlm";
      }
      else record {
        target = target;
        found = true;
        direction = parse_direction direction;
        distance = bucket;
        should_stop = is_close bucket;
        raw_answers = raw;
        distance_m = distance_m;
        distance_source = source;
      }
