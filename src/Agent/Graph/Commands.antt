-- ===== src/Agent/Graph/Commands.antt =====
-- The calls by which a run of the agent reaches the rover (agent/tools.py, agent/nodes.py).
use rover_mind.Prelude.{
  ℕ, zero, suc, String, refl, inl, inr, Option, none, some, List, Bool-cases, str_eq,
}
use rover_mind.Prelude.Int.{ℤ}
use rover_mind.Prelude.Io.{Io, Result, ok, err, is_caught, pure, lift, ◌>>=◌}
use rover_mind.Prelude.Text.{Unicode}
use rover_mind.Float.{Float, nought}
use rover_mind.Perception.{SceneObservation}
use rover_mind.Agent.{ActionParams, turn_degrees, forward_meters}
use rover_mind.Agent.Resolving.{IsCommand, Gives, turn_degrees-Gives, forward_meters-Gives}
use rover_mind.Agent.Tools.{
  Rig, Rover, Binding, outside, looked, look, report, move, turn_by, turn, drive_by, forward,
  search, stop, tool_call,
}
use rover_mind.Agent.Graph.{
  ToolCall, Message, RoverState, is_running, first_call, Place, at_reason, at_act, at_check, at_end,
  args_or, call_id, after_tool, use_tool, dispatch, init_node, check_node, should_continue, reason,
  act_node, run, graph_invoke,
}
use rover_mind.Prelude.{get_last?}

module _ (u : Unicode) {R W Args : Type 0} ⦃f : Float R⦄ (rover : Rover R W)
    (params : ActionParams R) (bind : Binding Args)
    (llm : List (Message Args) → Io W (Message Args)) (P : W → Type 0)
    (looks : (target : String) (w : W) → P w → P (rover.capture target w).1)
    (moves : (heading_deg distance_m : R) (w : W)
      → IsCommand params heading_deg distance_m
      → P w
      → P (rover.execute heading_deg distance_m w).1)
    (thinks : (messages : List (Message Args)) (w : W) → P w → P (llm messages w).1) where
  -- The call keeps the property of the world.
  abbrev Keeps : {A : Type 0} → Io (Rig R W) A → Type 0
  Keeps m = (rig : Rig R W) → P rig.world → P (m rig).1.world

  after-Keeps :
      {A B : Type 0} (k : A → Io (Rig R W) B) (r : Result A) (rig : Rig R W)
      → ((a : A) → Keeps (k a))
      → P rig.world
      → P ((lift r >>= k) rig).1.world
  after-Keeps k (ok a) rig h p = h a rig p
  after-Keeps k (err e) rig h p = p

  bind-Keeps :
      {A B : Type 0} (m : Io (Rig R W) A) (k : A → Io (Rig R W) B)
      → Keeps m
      → ((a : A) → Keeps (k a))
      → Keeps (m >>= k)
  bind-Keeps m k hm hk rig p = after-Keeps k (m rig).0 (m rig).1 hk (hm rig p)

  -- A resolved number is bound only where it is one of those that the resolver gives.
  resolved-Keeps :
      {B : Type 0} (Q : R → Type 0) (r : Result R) (k : R → Io (Rig R W) B)
      → Gives Q r
      → ((d : R) → Q d → Keeps (k d))
      → Keeps (lift r >>= k)
  resolved-Keeps Q (ok d) k q h rig p = h d q rig p
  resolved-Keeps Q (err e) k q h rig p = p

  execute-Keeps :
      (heading_deg distance_m : R)
      → IsCommand params heading_deg distance_m
      → Keeps (outside (rover.execute heading_deg distance_m))
  execute-Keeps heading_deg distance_m c rig p = moves heading_deg distance_m rig.world c p

  looked-Keeps :
      (r : Result (SceneObservation R)) (rig : Rig R W)
      → P rig.world
      → P (looked u rover params r rig).1.world
  unfolding looked
  looked-Keeps (ok obs) rig p = p
  looked-Keeps (err exc) rig p = elim (Bool-cases (is_caught exc)) [
    | inl caught ↦ rw caught p
    | inr other ↦ rw other p
  ]

  look-Keeps : (target : String) → Keeps (look u rover params target)
  unfolding look
  look-Keeps target rig p =
      looked-Keeps (rover.capture target rig.world).0
        (record rig { world = (rover.capture target rig.world).1 }) (looks target rig.world p)

  move-Keeps :
      (heading_deg distance_m : R) (done : String)
      → IsCommand params heading_deg distance_m
      → Keeps (move u rover params heading_deg distance_m done)
  unfolding move
  move-Keeps heading_deg distance_m done c =
      bind-Keeps (outside (rover.execute heading_deg distance_m))
        (λ result. pure (report u rover params result done))
        (execute-Keeps heading_deg distance_m c) (λ a rig p. p)

  turn-Keeps : (direction magnitude : String) → Keeps (turn u rover params direction magnitude)
  unfolding turn turn_by
  turn-Keeps direction magnitude =
      resolved-Keeps _ (turn_degrees u direction magnitude params) (turn_by u rover params)
        (turn_degrees-Gives u direction magnitude params)
        (λ d q. move-Keeps d nought _ (inl (q, refl)))

  forward-Keeps : (distance : String) → Keeps (forward u rover params distance)
  unfolding forward drive_by
  forward-Keeps distance =
      resolved-Keeps _ (forward_meters u distance params) (drive_by u rover params)
        (forward_meters-Gives u distance params)
        (λ m q. move-Keeps nought m _ (inr (inl (refl, q))))

  search-Keeps : Keeps (search u rover params)
  unfolding search
  search-Keeps = move-Keeps params.search_deg nought _ (inr (inr (refl, refl)))

  stop-Keeps : (why : String) → Keeps (stop u rover params why)
  unfolding stop
  stop-Keeps why rig p = p

  -- The same of a tool that may not be found.
  abbrev OptionKeeps : Option (Io (Rig R W) String) → Type 0
  OptionKeeps none = Unit
  OptionKeeps (some m) = Keeps m

  tool_call-Keeps :
      (name : String) (args : Args) → OptionKeeps (tool_call u rover params bind name args)
  unfolding tool_call
  tool_call-Keeps name args = elim (Bool-cases (str_eq name "look")) [
    | inl a ↦ rw a (λ rig p. after-Keeps (look u rover params) (bind.look args) rig look-Keeps p)
    | inr a ↦ elim (Bool-cases (str_eq name "turn")) [
      | inl b ↦
          rw (a, b)
            (λ rig p.
              after-Keeps (λ (d, m). turn u rover params d m) (bind.turn args) rig
                (λ (d, m). turn-Keeps d m) p)
      | inr b ↦ elim (Bool-cases (str_eq name "forward")) [
        | inl c ↦
            rw (a, b, c)
              (λ rig p.
                after-Keeps (forward u rover params) (bind.forward args) rig forward-Keeps p)
        | inr c ↦ elim (Bool-cases (str_eq name "search")) [
          | inl d ↦
              rw (a, b, c, d)
                (λ rig p.
                  after-Keeps (λ x. search u rover params) (bind.search args) rig
                    (λ x. search-Keeps) p)
          | inr d ↦ elim (Bool-cases (str_eq name "stop")) [
            | inl e ↦
                rw (a, b, c, d, e)
                  (λ rig p. after-Keeps (stop u rover params) (bind.stop args) rig stop-Keeps p)
            | inr e ↦ rw (a, b, c, d, e) tt
          ]
        ]
      ]
    ]
  ]

  use_tool-Keeps :
      (name id why : String) (o : Option (Io (Rig R W) String)) (s : RoverState R Args)
      → OptionKeeps o
      → Keeps (use_tool name id why o s)
  unfolding use_tool
  use_tool-Keeps name id why none s h rig p = p
  use_tool-Keeps name id why (some m) s h rig p =
      bind-Keeps m (λ result_str rig'. (ok (after_tool name id why result_str s rig'.obs), rig')) h
        (λ a rig p. p) rig p

  dispatch-Keeps :
      (o : Option (ToolCall Args)) (s : RoverState R Args)
      → Keeps (dispatch u rover params bind o s)
  unfolding dispatch
  dispatch-Keeps none s rig p = p
  dispatch-Keeps (some call) s rig p =
      let args : Args = args_or bind.no_args call.args in
      use_tool-Keeps call.name (call_id call.id) (bind.reason args)
        (tool_call u rover params bind call.name args) s (tool_call-Keeps call.name args) rig p

  act_node-Keeps : (s : RoverState R Args) → Keeps (act_node u rover params bind s)
  unfolding act_node
  act_node-Keeps s rig p = elim (Bool-cases (is_running s.status)) [
    | inl e ↦ rw e (dispatch-Keeps (first_call (get_last? s.messages)) s rig p)
    | inr e ↦ rw e p
  ]

  reason-Keeps : (s : RoverState R Args) → Keeps (reason {R = R} llm s)
  unfolding reason
  reason-Keeps s rig p = thinks s.messages rig.world p

  run-Keeps :
      (max_steps : ℤ) (n : ℕ) (place : Place) (s : RoverState R Args)
      → Keeps (run u rover params bind llm max_steps n place s)
  unfolding run
  run-Keeps max_steps zero at_end s rig p = p
  run-Keeps max_steps (suc n) at_end s rig p = p
  run-Keeps max_steps zero at_reason s rig p = p
  run-Keeps max_steps zero at_act s rig p = p
  run-Keeps max_steps zero at_check s rig p = p
  run-Keeps max_steps (suc n) at_reason s rig p =
      bind-Keeps (reason llm s) (run u rover params bind llm max_steps n at_act) (reason-Keeps s)
        (run-Keeps max_steps n at_act) rig p
  run-Keeps max_steps (suc n) at_act s rig p =
      bind-Keeps (act_node u rover params bind s) (run u rover params bind llm max_steps n at_check)
        (act_node-Keeps s) (run-Keeps max_steps n at_check) rig p
  run-Keeps max_steps (suc n) at_check s rig p =
      run-Keeps max_steps n (should_continue (check_node max_steps s)) (check_node max_steps s) rig
        p

  -- A run touches the rover only by looks and by the commands of its parameters: a property of the
  -- world that every look keeps, every call of the model, and every command that is a turn by a turn
  -- parameter, a drive by a forward parameter or the search turn, holds after a run if it held before
  -- it, whatever the model answers, and also where the run raises or its budget ends.
  pub graph_invoke-keeps :
      (max_steps : ℤ) (extract_target : String → String) (budget : ℕ) (task : String)
      (rig : Rig R W)
      → P rig.world
      → P (graph_invoke u rover params bind llm max_steps extract_target budget task rig).1.world
  unfolding graph_invoke
  graph_invoke-keeps max_steps extract_target zero task rig p = p
  graph_invoke-keeps max_steps extract_target (suc budget) task rig p =
      run-Keeps max_steps budget at_reason (init_node extract_target task) rig p
