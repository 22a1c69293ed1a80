-- ===== src/Rover/Run/Tests.antt =====
-- A run whose model stops at once, and one whose bridge is not there.
use rover_mind.Prelude.{
  ℕ, ◌+◌, String, ◌≡◌, refl, Bool, true, false, some, List, [], ◌∷◌, Any, get_last?, str_eq,
}
use rover_mind.Prelude.Int.{pos}
use rover_mind.Prelude.Io.{Io, Result, ok, err, exception, pure, raise}
use rover_mind.Prelude.Text.{Unicode}
use rover_mind.Float.{nought}
use rover_mind.Float.Fixed.{Fixed, num, fixed_float}
use rover_mind.Agent.{default_action_params}
use rover_mind.Agent.Tools.{Rover, Binding, tool_call}
use rover_mind.Agent.Graph.{Message, ai, RoverState, arrived, graph_invoke}
use rover_mind.Agent.Graph.Keeping.{CallsStop}
use rover_mind.Agent.Latency.{Collector}
use rover_mind.Agent.Latency.Summary.{Statistics}
use rover_mind.Bridge.Values.{Members}
use rover_mind.Bridge.Client.Opening.{Url, Sockets}
use rover_mind.Rover.Run.{Options, complete, Ended, main}
use rover_mind.Rover.Run.Exit.{run_result, main_arrives}
use rover_mind.Rover.Run.Reporting.{reports, wanted, main-Reports}

abbrev pub tables : Unicode
tables = record { lower = λ text. text; is_word = λ c. true; repr = λ text. text }

abbrev pub clock : ℕ → Fixed
clock n = num (pos n)

abbrev World : Type 0
World = Collector Fixed × ℕ

abbrev callables : Rover Fixed World
callables = record {
  execute = λ heading_deg distance_m. pure (record { success = true; message = "done" });
  capture = λ target. raise (exception "FrameCaptureError" "no frame");
}

abbrev pub bind : Binding String
bind = record {
  look = ok;
  turn = λ direction. ok (direction, "small");
  forward = ok;
  search = λ args. ok tt;
  stop = ok;
  reason = λ args. args;
  no_args = "";
}

abbrev stopping_model : List (Message String) → Io World (Message String)
stopping_model messages =
    pure (ai "" (record { name = "stop"; args = some "arrived"; id = some "call" } ∷ []))

abbrev pub is_os_error : String → Bool
is_os_error kind = str_eq kind "ConnectionRefusedError"

abbrev sockets : Sockets World
sockets = record {
  connect = λ at. pure tt;
  set_timeout = pure tt;
  make_stream = pure tt;
  close_stream = pure tt;
  close_socket = λ w. (ok tt, (w.0, w.1 + 1));
}

abbrev no_bridge : Sockets World
no_bridge = record sockets { connect = λ at. raise (exception "ConnectionRefusedError" "refused") }

abbrev pub local_url : String → Result Url
local_url url = ok (record { scheme = "tcp"; hostname = some "localhost"; port = some 9000 })

abbrev pub statistics : Statistics Fixed
statistics = record {
  round_ms = λ x. x;
  sum = λ xs. elim xs [ [] ↦ nought | x ∷ rest ↦ x ];
  mean = λ x xs. x;
  median = λ x xs. x;
}

abbrev pub options : Options
options = record {
  bridge = "tcp://localhost:9000";
  benchmark_json = some "run.json";
  no_report = false;
  task = "cup";
}

abbrev full_disk : String → Members Fixed → Result Unit
full_disk path report = err (exception "OSError" "no space left")

abbrev pub writes : String → Members Fixed → Result Unit
writes path report = ok tt

abbrev run_with : Sockets World → (String → Members Fixed → Result Unit) → Ended Fixed ℕ String
run_with calls write =
    main tables clock callables bind is_os_error calls local_url (λ t. t) (λ t. t) 61 statistics
      write options (ok (default_action_params, pos 20)) (ok stopping_model) 0

stops : (run_with sockets writes).code ≡ ok 0
unfolding main graph_invoke tool_call fixed_float
stops = refl

closed_once : (run_with sockets writes).world ≡ 1
unfolding main graph_invoke tool_call fixed_float
closed_once = refl

not_there : (run_with no_bridge writes).code ≡ ok 2
unfolding main
not_there = refl

-- An error of writing the file replaces the status.
not_written : (run_with sockets full_disk).code ≡ err (exception "OSError" "no space left")
unfolding main graph_invoke tool_call fixed_float
not_written = refl

main_arrives_example :
    (final : RoverState Fixed String) × (final.status ≡ arrived)
    × (final.task ≡ "cup")
    × (final.target ≡ "cup")
    × Any CallsStop final.messages
    × (run_result tables clock callables bind is_os_error sockets local_url
          (λ t. t)
          (λ t. t)
          61
          statistics
          writes
          options
          (ok (default_action_params, pos 20))
          (ok stopping_model)
          0
        ≡ ok final)
    × (get_last? (run_with sockets writes).shown ≡ some (complete final))
main_arrives_example =
    main_arrives tables clock callables bind is_os_error sockets local_url (λ t. t) (λ t. t) 61
      statistics writes options (ok (default_action_params, pos 20)) (ok stopping_model) 0 stops

main-Reports_example :
    let e = run_with sockets full_disk in
    reports e.shown
    ≡ wanted String statistics full_disk options e.collector.events e.collector.metrics e.collector
main-Reports_example =
    main-Reports tables clock callables bind is_os_error sockets local_url (λ t. t) (λ t. t) 61
      statistics full_disk options (ok (default_action_params, pos 20)) (ok stopping_model) 0
