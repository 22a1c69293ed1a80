-- ===== src/Agent/Tests.antt =====
-- A run of the agent with a scripted model: it looks, drives a short way, and stops.
use rover_mind.Prelude.{
  ℕ, zero, suc, ◌+◌, String, ◌≡◌, refl, true, false, Option, none, some, List, [], ◌∷◌, arith,
}
use rover_mind.Prelude.Int.{pos}
use rover_mind.Prelude.Io.{Io, Result, ok, err, exception, pure, raise, Ensures}
use rover_mind.Prelude.Text.{Unicode}
use rover_mind.Float.Fixed.{Fixed, fixed_float}
use rover_mind.Perception.{SceneObservation}
use rover_mind.Agent.{ActionParams, default_action_params}
use rover_mind.Agent.Tools.{Rig, Rover, Binding, tool_call}
use rover_mind.Agent.Graph.{
  Message, ai, Status, arrived, failed_max_steps, aborted, RoverState, Outcome, finished,
  out_of_steps, graph_invoke,
}
use rover_mind.Agent.Graph.Ending.{HasEnded, graph_invoke-HasEnded}

abbrev tables : Unicode
tables = record { lower = λ text. text; is_word = λ c. true; repr = λ text. text }

abbrev params : ActionParams Fixed
params = default_action_params

-- The commands that were executed, and the number of the model's answers.
record World : Type 0 where
  log : List (Fixed × Fixed)
  answers : ℕ

abbrev seen : SceneObservation Fixed
seen = record {
  target = "cup";
  found = true;
  direction = some "center";
  distance = some "medium";
  should_stop = false;
  raw_answers = record { visible = "yes"; direction = "center"; distance = "medium" };
  distance_m = none;
  distance_source = "vlm";
}

abbrev rover : Rover Fixed World
rover = record {
  execute = λ heading_deg distance_m w. (
    ok (record { success = true; message = "done" }),
    record w { log = (heading_deg, distance_m) ∷ w.log },
  );
  capture = λ target. pure seen;
}

-- The arguments of every call are one text.
abbrev bind : Binding String
bind = record {
  look = ok;
  turn = λ direction. ok (direction, "small");
  forward = ok;
  search = λ args. ok tt;
  stop = ok;
  reason = λ args. args;
  no_args = "";
}

abbrev answer_with : String → String → Message String
answer_with name args = ai "" (record { name = name; args = some args; id = some "call" } ∷ [])

abbrev script : ℕ → Message String
script zero = answer_with "look" "cup"
script (suc zero) = answer_with "forward" "short"
script (suc (suc n)) = answer_with "stop" "arrived"

abbrev model : List (Message String) → Io World (Message String)
model messages w = (ok (script w.answers), record w { answers = w.answers + 1 })

abbrev broken_model : List (Message String) → Io World (Message String)
broken_model messages = raise (exception "APIError" "no connection")

abbrev start : Rig Fixed World
start = record { obs = none; world = record { log = []; answers = 0 } }

abbrev status_of : Result (Outcome (RoverState Fixed String)) × Rig Fixed World → Option Status
status_of (ok (finished t), rig) = some t.status
status_of (ok out_of_steps, rig) = none
status_of (err e, rig) = none

arrives :
    status_of (graph_invoke tables rover params bind model (pos 20) (λ t. t) 61 "cup" start)
    ≡ some arrived
unfolding graph_invoke tool_call fixed_float
arrives = refl

aborts :
    status_of (graph_invoke tables rover params bind broken_model (pos 20) (λ t. t) 61 "cup" start)
    ≡ some aborted
unfolding graph_invoke tool_call fixed_float
aborts = refl

hits_limit :
    status_of (graph_invoke tables rover params bind model (pos 2) (λ t. t) 61 "cup" start)
    ≡ some failed_max_steps
unfolding graph_invoke tool_call fixed_float
hits_limit = refl

-- A budget of 25 node executions does not last for twenty rounds of looking.
abbrev looking_model : List (Message String) → Io World (Message String)
looking_model messages = pure (answer_with "look" "cup")

out_of_budget :
    status_of (graph_invoke tables rover params bind looking_model (pos 20) (λ t. t) 25 "cup" start)
    ≡ none
unfolding graph_invoke tool_call fixed_float
out_of_budget = refl

graph_invoke-HasEnded_example :
    Ensures
      (HasEnded {R = Fixed} {Args = String} (pos 20))
      (graph_invoke tables rover params bind model (pos 20) (λ t. t) 61 "cup" start)
graph_invoke-HasEnded_example =
    graph_invoke-HasEnded tables rover params bind model (pos 20) (λ t. t) 61 "cup" start
      (omega arith)
