-- ===== src/Rover/Run/Keeping.antt =====
-- The commands that a run sends to the rover (main of scripts/run_agent.py).
mod Tests
use rover_mind.Prelude.{ℕ, ◌+◌, String, Bool, List, none}
use rover_mind.Prelude.Io.{Io, Result, ok, err}
use rover_mind.Prelude.Io.Finally.{Keeps}
use rover_mind.Prelude.Int.{ℤ}
use rover_mind.Prelude.Text.{Unicode}
use rover_mind.Float.{Float}
use rover_mind.Agent.{ActionParams}
use rover_mind.Agent.Resolving.{IsCommand}
use rover_mind.Agent.Tools.{Rig, Rover, Binding}
use rover_mind.Agent.Graph.{Message, RoverState, Outcome, finished, out_of_steps, graph_invoke}
use rover_mind.Agent.Graph.Commands.{graph_invoke-keeps}
use rover_mind.Agent.Latency.{Collector, span, timed, timed_invoke}
use rover_mind.Agent.Latency.Summary.{Statistics, Summary}
use rover_mind.Bridge.Values.{Members}
use rover_mind.Agent.Latency.Dict.{to_dict}
use rover_mind.Bridge.Client.Opening.{Url, Sockets, with_client}
use rover_mind.Bridge.Client.Opening.Closing.{with_client-Keeps}
use rover_mind.Rover.Run.{
  Options, move_label, timed_rover, outcome_of, invoke_graph, attempt, nothing_yet, main,
}

module _ {R W : Type 0} (P : W → Type 0) where
  -- The property of the world beside the collector.
  abbrev pub Beside : Collector R × W → Type 0
  Beside s = P s.1

  span-Keeps :
      {A : Type 0} (clock : ℕ → R) (category label : String) (block : Io (Collector R × W) A)
      → Keeps Beside block
      → Keeps Beside (span clock category label block)
  unfolding span
  span-Keeps clock category label block h (c, w) p = h (record c { ticks = c.ticks + 1 }, w) p

  outcome_of-world :
      {S : Type 0} (r : Result (Outcome S) × Rig R (Collector R × W))
      → P r.1.world.1
      → P (outcome_of r).1.1
  outcome_of-world (ok (finished s), rig) p = p
  outcome_of-world (ok out_of_steps, rig) p = p
  outcome_of-world (err e, rig) p = p

module _ (u : Unicode) {R W Args : Type 0} ⦃f : Float R⦄ (clock : ℕ → R)
    (bridge : Rover R (Collector R × W)) (bind : Binding Args) (is_os_error : String → Bool)
    (sockets : Sockets (Collector R × W)) (urlparse : String → Result Url) (repr : String → String)
    (extract_target : String → String) (budget : ℕ) (statistics : Statistics R)
    (write : String → Members R → Result Unit) (options : Options) (params : ActionParams R)
    (max_steps : ℤ) (llm : List (Message Args) → Io (Collector R × W) (Message Args))
    (P : W → Type 0) where
  invoke_graph-Keeps :
      ((target : String) → Keeps (Beside P) (bridge.capture target))
      → ((heading_deg distance_m : R)
          → IsCommand params heading_deg distance_m
          → Keeps (Beside P) (bridge.execute heading_deg distance_m))
      → ((messages : List (Message Args)) → Keeps (Beside P) (llm messages))
      → Keeps (Beside P) (
          invoke_graph u clock bridge bind is_os_error sockets urlparse repr extract_target budget
            statistics write options params max_steps llm)
  unfolding invoke_graph timed_rover timed timed_invoke
  invoke_graph-Keeps looks moves thinks s p =
      outcome_of-world P
        (graph_invoke u (timed_rover clock bridge) params bind (timed_invoke clock "llm" llm)
          max_steps extract_target budget options.task (record { obs = none; world = s }))
        (graph_invoke-keeps u (timed_rover clock bridge) params bind (timed_invoke clock "llm" llm)
          (Beside P)
          (λ target t q.
            span-Keeps P clock "look" target (bridge.capture target) (looks target) t q)
          (λ heading_deg distance_m t c q.
            span-Keeps P clock "move" (move_label (heading_deg, distance_m))
              (bridge.execute heading_deg distance_m) (moves heading_deg distance_m c) t q)
          (λ messages t q. span-Keeps P clock "reason" "llm" (llm messages) (thinks messages) t q)
          max_steps extract_target budget options.task (record { obs = none; world = s }) p)

  -- A whole run touches the rover only by looks and by the commands of its parameters: a property of the
  -- world that the calls on the socket, every look and every call of the model keep, and every command
  -- that is a turn by a turn parameter, a drive by a forward parameter or the search turn, holds after
  -- the run if it held before it, whatever the model answers, and however the run ends.
  pub main_keeps :
      ((at : String × ℕ) → Keeps (Beside P) (sockets.connect at))
      → Keeps (Beside P) sockets.set_timeout
      → Keeps (Beside P) sockets.make_stream
      → Keeps (Beside P) sockets.close_stream
      → Keeps (Beside P) sockets.close_socket
      → ((target : String) → Keeps (Beside P) (bridge.capture target))
      → ((heading_deg distance_m : R)
          → IsCommand params heading_deg distance_m
          → Keeps (Beside P) (bridge.execute heading_deg distance_m))
      → ((messages : List (Message Args)) → Keeps (Beside P) (llm messages))
      → (w : W) → P w
      → P
          (main u clock bridge bind is_os_error sockets urlparse repr extract_target budget
            statistics write options
            (ok (params, max_steps))
            (ok llm)
            w).world
  unfolding main attempt
  main_keeps connects times_out streams ends_stream ends_socket looks moves thinks w p =
      with_client-Keeps is_os_error sockets (Beside P) urlparse repr options.bridge
        (span clock "run" "graph" (
          invoke_graph u clock bridge bind is_os_error sockets urlparse repr extract_target budget
            statistics write options params max_steps llm))
        connects times_out streams ends_stream ends_socket
        (span-Keeps P clock "run" "graph"
          (invoke_graph u clock bridge bind is_os_error sockets urlparse repr extract_target budget
            statistics write options params max_steps llm)
          (invoke_graph-Keeps looks moves thinks))
        (nothing_yet, w) p
