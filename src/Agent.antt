-- ===== src/Agent.antt =====
-- The agent's movement vocabulary: its parameters (agent/params.py), the resolvers from buckets to
-- numbers (agent/action_resolvers.py), the local check and the result of a command
-- (agent/command_executor.py), and what the language model reads of an observation
-- (agent/observation_formatter.py).
pub mod Resolving
pub mod Tools
pub mod Target
pub mod Latency
pub mod Executor
pub mod Graph
pub mod Config
mod Tests
use rover_mind.Prelude.{
  String, ◌≡◌, Bool, true, false, not, Option, none, some, List, [], ◌∷◌, if◌then◌else◌, str_eq,
  concat,
}
use rover_mind.Prelude.Int.{ℤ, pos}
use rover_mind.Prelude.Io.{Result, ok, err, exception}
use rover_mind.Prelude.Text.{Unicode}
use rover_mind.Float.{Float, nought}
use rover_mind.Perception.{SceneObservation}

pub record ActionParams (R : Type 0) : Type 0 where
  pub turn_small_deg : R
  pub turn_large_deg : R
  pub search_deg : R
  pub forward_short_m : R
  pub forward_medium_m : R

pub record AgentParams (R : Type 0) : Type 0 where
  pub llm_provider : String
  pub llm_model : String
  pub llm_temperature : R
  pub max_steps : ℤ

pub record ExecuteResult : Type 0 where
  pub success : Bool
  pub message : String

-- `f"{obs.distance} distance" if obs.distance is not None else "unknown distance"`
distance_phrase : Option String → String
distance_phrase none = "unknown distance"
distance_phrase (some d) = concat (d ∷ " distance" ∷ [])

-- `obs.direction or "unknown direction"`
direction_phrase : Option String → String
direction_phrase none = "unknown direction"
direction_phrase (some d) = if str_eq d "" then "unknown direction" else d

unfoldable pub format_observation : {R : Type 0} → SceneObservation R → String
unfolding distance_phrase direction_phrase
format_observation obs =
    if not obs.found
    then "target not found"
    else (let direction = direction_phrase obs.direction in
        let distance = distance_phrase obs.distance in
        let base = concat ("target found at " ∷ direction ∷ ", " ∷ distance ∷ []) in
        if obs.should_stop then concat (base ∷ " (arrived: call stop)" ∷ []) else base)

value_error : {A : Type 0} → List String → Result A
value_error pieces = err (exception "ValueError" (concat pieces))

module _ {R : Type 0} ⦃f : Float R⦄ where
  open f use {lit, neg, is_finite, lt}

  abbrev pub default_action_params : ActionParams R
  default_action_params = record {
    turn_small_deg = lit 300 1;
    turn_large_deg = lit 600 1;
    search_deg = lit 450 1;
    forward_short_m = lit 3 1;
    forward_medium_m = lit 6 1;
  }

  abbrev pub default_agent_params : AgentParams R
  default_agent_params = record {
    llm_provider = "openai";
    llm_model = "gpt-4o-mini";
    llm_temperature = nought;
    max_steps = pos 20;
  }

  -- The second test of `turn_degrees`, with the magnitude resolved.
  signed_turn : Unicode → String → R → Result R
  unfolding value_error
  signed_turn u direction mag =
      if str_eq direction "left"
      then ok mag
      else if str_eq direction "right"
      then ok (neg mag)
      else value_error ("direction must be 'left' or 'right', got " ∷ u.repr direction ∷ [])

  unfoldable pub turn_degrees : Unicode → String → String → ActionParams R → Result R
  unfolding signed_turn value_error
  turn_degrees u direction magnitude params =
      if str_eq magnitude "small"
      then signed_turn u direction params.turn_small_deg
      else if str_eq magnitude "large"
      then signed_turn u direction params.turn_large_deg
      else value_error ("magnitude must be 'small' or 'large', got " ∷ u.repr magnitude ∷ [])

  unfoldable pub forward_meters : Unicode → String → ActionParams R → Result R
  unfolding value_error
  forward_meters u distance params =
      if str_eq distance "short"
      then ok params.forward_short_m
      else if str_eq distance "medium"
      then ok params.forward_medium_m
      else value_error ("distance must be 'short' or 'medium', got " ∷ u.repr distance ∷ [])

  abbrev pub search_degrees : ActionParams R → R
  search_degrees params = params.search_deg

  unfoldable pub validate_command : R → R → Result Unit
  unfolding value_error
  validate_command heading_deg distance_m =
      if not (is_finite heading_deg)
      then value_error ("heading_deg must be finite, got " ∷ f.repr heading_deg ∷ [])
      else if not (is_finite distance_m)
      then value_error ("distance_m must be finite, got " ∷ f.repr distance_m ∷ [])
      else if lt distance_m nought
      then value_error ("distance_m must be non-negative, got " ∷ f.repr distance_m ∷ [])
      else ok tt
