-- ===== src/Rover/Run/Exit.antt =====
-- The exit status of a run (main of scripts/run_agent.py).
use rover_mind.Prelude.{
  ℕ, ◌+◌, String, ◌≡◌, refl, subst, Bool, true, false, none, some, Option, List, if◌then◌else◌,
  str_eq, Any, arith, ap, ◌∙◌, ◌++◌, [], ◌∷◌, get_last?, get_last?-append,
}
use rover_mind.Prelude.Io.{Exception, Io, Result, ok, err, ok-inj, Ensures}
use rover_mind.Prelude.Int.{ℤ}
use rover_mind.Prelude.Text.{Unicode}
use rover_mind.Float.{Float}
use rover_mind.Agent.{ActionParams}
use rover_mind.Agent.Tools.{Rig, Rover, Binding}
use rover_mind.Agent.Graph.{
  Message, Status, RoverState, Outcome, finished, out_of_steps, running, arrived, failed_max_steps,
  aborted, graph_invoke,
}
use rover_mind.Agent.Graph.Arrival.{IsHonest, HonestOutcome, graph_invoke-IsHonest}
use rover_mind.Agent.Graph.Keeping.{CallsStop}
use rover_mind.Agent.Latency.{Collector, span, timed_invoke}
use rover_mind.Agent.Latency.Summary.{Statistics}
use rover_mind.Bridge.Values.{Members}
use rover_mind.Bridge.Client.Opening.{Url, Sockets}
use rover_mind.Bridge.Client.Opening.Closing.{with_client_returns}
use rover_mind.Rover.Run.{
  Options, complete, error_lines, last_lines, is_arrived, timed_rover, outcome_of, exit_status,
  reported, tried, report_run, finish_run, invoke_graph, attempt, nothing_yet, main,
}

arrived_lem : (x : Status) → is_arrived x ≡ true → x ≡ arrived
arrived_lem arrived e = refl
arrived_lem running e = absurd (cc)
arrived_lem failed_max_steps e = absurd (cc)
arrived_lem aborted e = absurd (cc)

status_zero : (b : Bool) → ◌≡◌ {A = Result ℕ} (if b then ok 0 else ok 1) (ok 0) → b ≡ true
status_zero true h = refl
status_zero false h = let e = ok-inj 1 0 h in absurd (omega arith)

module _ {R Args : Type 0} where
  -- The exit status 0 is of a run that gave a state with the status "arrived".
  exit_status_zero :
      (left : Result (Option (RoverState R Args)))
      → exit_status left ≡ ok 0
      → (final : RoverState R Args) × (left ≡ ok (some final)) × (final.status ≡ arrived)
  exit_status_zero (err e) h = absurd (cc)
  exit_status_zero (ok none) h = let e = ok-inj 2 0 h in absurd (omega arith)
  exit_status_zero (ok (some final)) h =
      (final, refl, arrived_lem final.status (status_zero (is_arrived final.status) h))

  no_state :
      (b : Bool) (e : Exception) (final : RoverState R Args)
      → (if b then ok none else err e) ≡ ok (some final)
      → ⊥
  no_state true e final h = cc
  no_state false e final h = cc

  tried_state :
      (r : Result (RoverState R Args)) (final : RoverState R Args)
      → tried r ≡ ok (some final)
      → r ≡ ok final
  tried_state (ok s) final h = cc
  tried_state (err e) final h = absurd (no_state (str_eq e.kind "BridgeUnreachable") e final h)

  finished_state :
      {W : Type 0} (P : RoverState R Args → Type 0) (out : Outcome (RoverState R Args) → Type 0)
      (r : Result (Outcome (RoverState R Args)) × Rig R W) (final : RoverState R Args)
      → ((t : RoverState R Args) → out (finished t) → P t)
      → Ensures {W = Rig R W} out r
      → (outcome_of r).0 ≡ ok final
      → P final
  finished_state P out (ok (finished t), rig) final through h e =
      subst P (ok-inj t final e) (through t h)
  finished_state P out (ok out_of_steps, rig) final through h e = absurd (cc)
  finished_state P out (err x, rig) final through h e = absurd (cc)

module _ (u : Unicode) {R W Args : Type 0} ⦃f : Float R⦄ (clock : ℕ → R)
    (bridge : Rover R (Collector R × W)) (bind : Binding Args) (is_os_error : String → Bool)
    (sockets : Sockets (Collector R × W)) (urlparse : String → Result Url) (repr : String → String)
    (extract_target : String → String) (budget : ℕ) (statistics : Statistics R)
    (write : String → Members R → Result Unit) (options : Options) where
  attempt-IsHonest :
      (params : ActionParams R) (max_steps : ℤ)
      (llm : List (Message Args) → Io (Collector R × W) (Message Args)) (w : Collector R × W)
      (final : RoverState R Args)
      → (attempt u clock bridge bind is_os_error sockets urlparse repr extract_target budget
          statistics write options params max_steps llm w).0
        ≡ ok final
      → IsHonest options.task (extract_target options.task) final
  unfolding attempt span invoke_graph
  attempt-IsHonest params max_steps llm w final h =
      let timed_llm = timed_invoke clock "llm" llm in
      let ((c, v), same) =
        with_client_returns is_os_error sockets urlparse repr options.bridge
          (span clock "run" "graph" (
            invoke_graph u clock bridge bind is_os_error sockets urlparse repr extract_target budget
              statistics write options params max_steps llm))
          w final h in
      let rig : Rig R (Collector R × W) = record {
        obs = none;
        world = (record c { ticks = c.ticks + 1 }, v);
      } in
      finished_state (IsHonest options.task (extract_target options.task))
        (HonestOutcome options.task (extract_target options.task))
        (graph_invoke u (timed_rover clock bridge) params bind timed_llm max_steps extract_target
          budget options.task rig)
        final (λ t p. p)
        (graph_invoke-IsHonest u (timed_rover clock bridge) params bind timed_llm max_steps
          extract_target budget options.task rig)
        same

  reported_state :
      (q : Result Unit) (r : Result (Option (RoverState R Args))) (final : RoverState R Args)
      → reported statistics write options q r ≡ ok (some final)
      → r ≡ ok (some final)
  reported_state (err e) r final h = absurd (cc)
  reported_state (ok done) r final h = h

  -- What the graph of the run gives, where the parameters have loaded and the model is built.
  abbrev pub run_result :
      Result (ActionParams R × ℤ)
      → Result (List (Message Args) → Io (Collector R × W) (Message Args))
      → W
      → Result (RoverState R Args)
  run_result (err e) llm w = err e
  run_result (ok params) (err e) w = err e
  run_result (ok (params, max_steps)) (ok llm) w =
      (attempt u clock bridge bind is_os_error sockets urlparse repr extract_target budget
        statistics write options params max_steps llm (nothing_yet, w)).0

  -- The exit status of a run is 0 only where its graph has given a state of the task, and of the
  -- target extracted from it, whose status is "arrived" and in which the model has answered with a
  -- call of stop; that state is what the run prints last.
  pub main_arrives :
      (params : Result (ActionParams R × ℤ))
      (llm : Result (List (Message Args) → Io (Collector R × W) (Message Args))) (w : W)
      → (main u clock bridge bind is_os_error sockets urlparse repr extract_target budget statistics
          write options params llm w).code
        ≡ ok 0
      → (final : RoverState R Args) × (final.status ≡ arrived)
        × (final.task ≡ options.task)
        × (final.target ≡ extract_target options.task)
        × Any CallsStop final.messages
        × (run_result params llm w ≡ ok final)
        × (get_last?
              (main u clock bridge bind is_os_error sockets urlparse repr extract_target budget
                statistics write options params llm w).shown
            ≡ some (complete final))
  unfolding main finish_run
  main_arrives (err e) llm w h = absurd (cc)
  main_arrives (ok params) (err e) w h = absurd (cc)
  main_arrives (ok (params, max_steps)) (ok llm) w h =
      let (r, (c, v)) =
        attempt u clock bridge bind is_os_error sockets urlparse repr extract_target budget
          statistics write options params max_steps llm (nothing_yet, w) in
      let (q, lines) =
        report_run {R = R} {Args = Args} statistics write options c.events c.metrics c in
      let (final, left, status) =
        exit_status_zero (reported statistics write options q (tried r)) h in
      let same = tried_state r final (reported_state q (tried r) final left) in
      let (task, target, calls) =
        attempt-IsHonest params max_steps llm (nothing_yet, w) final same in
      let last =
        ap
          (λ (l : Result (Option (RoverState R Args))).
            get_last? (error_lines r ++ (lines ++ last_lines l)))
          left
        ∙ ap
            (λ (s : Result (RoverState R Args)).
              get_last? (error_lines s ++ (lines ++ (complete final ∷ []))))
            same
        ∙ get_last?-append lines (complete final) in
      (final, status, task, target, calls status, same, last)
