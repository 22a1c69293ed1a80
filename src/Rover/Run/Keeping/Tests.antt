-- ===== src/Rover/Run/Keeping/Tests.antt =====
-- A run that drives once; the world is the log of its commands.
use rover_mind.Prelude.{String, ◌≡◌, refl, true, List, [], ◌∷◌, All, some}
use rover_mind.Prelude.Int.{pos}
use rover_mind.Prelude.Io.{Io, ok, exception, pure, raise}
use rover_mind.Float.{nought}
use rover_mind.Float.Fixed.{Fixed, num, fixed_float}
use rover_mind.Agent.{ActionParams, default_action_params}
use rover_mind.Agent.Resolving.{IsCommand}
use rover_mind.Agent.Tools.{Rover, tool_call}
use rover_mind.Agent.Graph.{Message, ai, graph_invoke}
use rover_mind.Agent.Latency.{Collector}
use rover_mind.Bridge.Client.Opening.{Sockets}
use rover_mind.Rover.Run.{main}
use rover_mind.Rover.Run.Keeping.{main_keeps}
use rover_mind.Rover.Run.Tests.{
  tables, clock, bind, is_os_error, local_url, statistics, options, writes,
}

abbrev Log : Type 0
Log = List (Fixed × Fixed)

abbrev params : ActionParams Fixed
params = default_action_params

abbrev logging : Rover Fixed (Collector Fixed × Log)
logging = record {
  execute = λ heading_deg distance_m s.
      (ok (record { success = true; message = "done" }), (s.0, (heading_deg, distance_m) ∷ s.1));
  capture = λ target. raise (exception "FrameCaptureError" "no frame");
}

abbrev answer_with : String → String → Message String
answer_with name args = ai "" (record { name = name; args = some args; id = some "call" } ∷ [])

-- The model drives first, and then stops.
abbrev choose : Log → Message String
choose [] = answer_with "forward" "short"
choose (command ∷ log) = answer_with "stop" "arrived"

abbrev model : List (Message String) → Io (Collector Fixed × Log) (Message String)
model messages s = (ok (choose s.1), s)

abbrev quiet : Sockets (Collector Fixed × Log)
quiet = record {
  connect = λ at. pure tt;
  set_timeout = pure tt;
  make_stream = pure tt;
  close_stream = pure tt;
  close_socket = pure tt;
}

abbrev IsAllowed : Log → Type 0
IsAllowed log = All (λ (heading_deg, distance_m). IsCommand params heading_deg distance_m) log

drives_once :
    (main tables clock logging bind is_os_error quiet local_url
      (λ t. t)
      (λ t. t)
      61
      statistics
      writes
      options
      (ok (params, pos 20))
      (ok model)
      []).world
    ≡ (nought, num (pos 300_000_000)) ∷ []
unfolding main graph_invoke tool_call fixed_float
drives_once = refl

main_keeps_example :
    IsAllowed
      (main tables clock logging bind is_os_error quiet local_url
        (λ t. t)
        (λ t. t)
        61
        statistics
        writes
        options
        (ok (params, pos 20))
        (ok model)
        []).world
main_keeps_example =
    main_keeps tables clock logging bind is_os_error quiet local_url (λ t. t) (λ t. t) 61 statistics
      writes options params (pos 20) model IsAllowed (λ at s p. p) (λ s p. p) (λ s p. p) (λ s p. p)
      (λ s p. p) (λ target s p. p) (λ heading_deg distance_m c s p. (c, p)) (λ messages s p. p) []
      tt
