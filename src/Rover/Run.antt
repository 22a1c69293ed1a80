-- ===== src/Rover/Run.antt =====
-- One run of the agent (main and _emit_report of scripts/run_agent.py): the graph over the client's
-- callables, both timed, inside of the client's `with` block, and the latency report at the end. What
-- load_params and build_llm come to, and the callables of the client, are parameters.
pub mod Exit
pub mod Reporting
pub mod Keeping
mod Tests
use rover_mind.Prelude.{
  ℕ, String, Bool, true, false, Option, none, some, List, [], ◌∷◌, ◌++◌, if◌then◌else◌, str_eq,
  concat,
}
use rover_mind.Prelude.Int.{ℤ}
use rover_mind.Prelude.Io.{Exception, Io, Result, ok, err, exception, ◌>>=◌}
use rover_mind.Prelude.Text.{Unicode}
use rover_mind.Float.{Float}
use rover_mind.Perception.{SceneObservation}
use rover_mind.Agent.{ActionParams, ExecuteResult}
use rover_mind.Agent.Tools.{Rig, Rover, Binding}
use rover_mind.Agent.Graph.{
  Message, Status, running, arrived, failed_max_steps, aborted, RoverState, Outcome, finished,
  out_of_steps, graph_invoke,
}
use rover_mind.Agent.Latency.{Event, Metric, Collector, span, timed, timed_invoke}
use rover_mind.Agent.Latency.Summary.{Statistics, Summary, summarize}
use rover_mind.Bridge.Values.{Members}
use rover_mind.Agent.Latency.Dict.{to_dict}
use rover_mind.Bridge.Client.Opening.{Url, Sockets, with_client}

-- The command line: `ns`, with the words of the task joined.
pub record Options : Type 0 where
  pub bridge : String
  pub benchmark_json : Option String
  pub no_report : Bool
  pub task : String

-- What is printed, and the report that is written to a file.
pub data Shown (R Args : Type 0) : Type 0 where
  unreachable : Exception → Shown R Args
  report : Summary R → Shown R Args
  written : String → Summary R → Shown R Args
  complete : RoverState R Args → Shown R Args

abbrev pub is_arrived : Status → Bool
is_arrived arrived = true
is_arrived running = false
is_arrived failed_max_steps = false
is_arrived aborted = false

-- `f"h={h:.0f},d={d:.2f}"`
abbrev pub move_label : {R : Type 0} → ⦃f : Float R⦄ → R × R → String
move_label ⦃f⦄ (h, d) = concat ("h=" ∷ f.fixed 0 h ∷ ",d=" ∷ f.fixed 2 d ∷ [])

module _ {R W : Type 0} ⦃f : Float R⦄ (clock : ℕ → R) (bridge : Rover R (Collector R × W)) where
  -- The two callables as the graph gets them.
  unfoldable pub timed_rover : Rover R (Collector R × W)
  unfolding timed
  timed_rover = record {
    execute = λ heading_deg distance_m.
        timed clock (λ (args : R × R). bridge.execute args.0 args.1) "move" (some move_label)
          (heading_deg, distance_m);
    capture = λ target. timed clock bridge.capture "look" (some (λ t. t)) target;
  }

-- A run of the graph with the sink of its tools, which is empty first; the recursion error of the graph
-- library is an exception.
abbrev pub outcome_of : {R W S : Type 0} → Result (Outcome S) × Rig R W → Result S × W
outcome_of (ok (finished s), rig) = (ok s, rig.world)
outcome_of (ok out_of_steps, rig) = (err (exception "GraphRecursionError" ""), rig.world)
outcome_of (err e, rig) = (err e, rig.world)

-- `except BridgeUnreachable`
abbrev pub tried :
    {R Args : Type 0} → Result (RoverState R Args) → Result (Option (RoverState R Args))
tried (ok final) = ok (some final)
tried (err e) = if str_eq e.kind "BridgeUnreachable" then ok none else err e

abbrev pub error_lines : {R Args : Type 0} → Result (RoverState R Args) → List (Shown R Args)
error_lines (ok final) = []
error_lines (err e) = if str_eq e.kind "BridgeUnreachable" then unreachable e ∷ [] else []

-- The end of `main`, by what is left of the `try`.
abbrev pub exit_status : {R Args : Type 0} → Result (Option (RoverState R Args)) → Result ℕ
exit_status (err e) = err e
exit_status (ok none) = ok 2
exit_status (ok (some final)) = if is_arrived final.status then ok 0 else ok 1

abbrev pub last_lines :
    {R Args : Type 0} → Result (Option (RoverState R Args)) → List (Shown R Args)
last_lines (err e) = []
last_lines (ok none) = []
last_lines (ok (some final)) = complete final ∷ []

-- `_emit_report` on the option of the file, with what writing it does.
abbrev pub written_lines :
    {R Args : Type 0}
    → (String → Members R → Result Unit)
    → Summary R
    → Option String
    → Result Unit × List (Shown R Args)
written_lines write summary none = (ok tt, [])
written_lines write summary (some path) =
    if str_eq path "" then (ok tt, []) else elim (write path (to_dict summary)) [
      | err e ↦ (err e, [])
      | ok done ↦ (ok tt, written path summary ∷ [])
    ]

module _ {R Args : Type 0} ⦃f : Float R⦄ (statistics : Statistics R)
    (write : String → Members R → Result Unit) (options : Options) where
  unfoldable pub emit_report : Summary R → Result Unit × List (Shown R Args)
  emit_report summary =
      let (r, lines) = written_lines write summary options.benchmark_json in
      (r, (if options.no_report then [] else report summary ∷ []) ++ lines)

  -- The `finally`: `if collector.events or collector.metrics`.
  unfoldable pub report_run :
      List (Event R) → List (Metric R) → Collector R → Result Unit × List (Shown R Args)
  unfolding emit_report summarize
  report_run [] [] c = (ok tt, [])
  report_run (e ∷ events) metrics c = emit_report (summarize statistics c)
  report_run [] (m ∷ metrics) c = emit_report (summarize statistics c)

  -- What is left of the `try` once the report has been emitted.
  abbrev pub reported :
      Result Unit → Result (Option (RoverState R Args)) → Result (Option (RoverState R Args))
  reported (err e) left = err e
  reported (ok done) left = left

  -- `main` from the `try` on: its status, and what was shown.
  unfoldable pub finish_run :
      Result (RoverState R Args) → Collector R → Result ℕ × List (Shown R Args)
  unfolding report_run
  finish_run r c =
      let (q, lines) = report_run c.events c.metrics c in
      let left = reported q (tried r) in
      (exit_status left, error_lines r ++ (lines ++ last_lines left))

-- What `main` leaves: its status or what it raises, what was shown, the collector and the world.
pub record Ended (R W Args : Type 0) : Type 0 where
  pub code : Result ℕ
  pub shown : List (Shown R Args)
  pub collector : Collector R
  pub world : W

-- A new collector.
abbrev pub nothing_yet : {R : Type 0} → Collector R
nothing_yet = record { ticks = 0; events = []; metrics = [] }

module _ (u : Unicode) {R W Args : Type 0} ⦃f : Float R⦄ (clock : ℕ → R)
    (bridge : Rover R (Collector R × W)) (bind : Binding Args) (is_os_error : String → Bool)
    (sockets : Sockets (Collector R × W)) (urlparse : String → Result Url) (repr : String → String)
    (extract_target : String → String) (budget : ℕ) (statistics : Statistics R)
    (write : String → Members R → Result Unit) (options : Options) where
  -- The block under `collector.span("run", "graph")`.
  unfoldable pub invoke_graph :
      ActionParams R
      → ℤ
      → (List (Message Args) → Io (Collector R × W) (Message Args))
      → Io (Collector R × W) (RoverState R Args)
  unfolding timed_rover timed_invoke graph_invoke
  invoke_graph params max_steps llm w = outcome_of (
      graph_invoke u (timed_rover clock bridge) params bind (timed_invoke clock "llm" llm) max_steps
        extract_target budget options.task (record { obs = none; world = w }))

  -- The `with` block.
  unfoldable pub attempt :
      ActionParams R
      → ℤ
      → (List (Message Args) → Io (Collector R × W) (Message Args))
      → Io (Collector R × W) (RoverState R Args)
  unfolding with_client span invoke_graph
  attempt params max_steps llm =
      with_client is_os_error sockets urlparse repr options.bridge
        (span clock "run" "graph" (invoke_graph params max_steps llm))

  abbrev pub ended_run : Result ℕ × List (Shown R Args) → Collector R × W → Ended R W Args
  ended_run (code, shown) (c, w) = record { code = code; shown = shown; collector = c; world = w }

  -- `main`, on what `load_params` and `build_llm` come to.
  unfoldable pub main :
      Result (ActionParams R × ℤ)
      → Result (List (Message Args) → Io (Collector R × W) (Message Args))
      → W
      → Ended R W Args
  unfolding attempt finish_run
  main (err e) llm w = ended_run (err e, []) (nothing_yet, w)
  main (ok params) (err e) w = ended_run (err e, []) (nothing_yet, w)
  main (ok (params, max_steps)) (ok llm) w =
      let (r, left) = attempt params max_steps llm (nothing_yet, w) in
      ended_run (finish_run statistics write options r left.0) left
