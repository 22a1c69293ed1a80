-- ===== src/Agent/Graph/Keeping.antt =====
-- The step of the nodes `reason` and `act` on the fields of the state (agent/nodes.py).
use rover_mind.Prelude.{
  String, ◌≡◌, refl, ◌⊎◌, inl, inr, Bool, true, false, Option, none, some, List, [], ◌∷◌, ◌++◌,
  arith, Any, Bool-cases, get_last?, str_eq,
}
use rover_mind.Prelude.Io.{Io, Result, ok, err, Ensures, Ensures-bind, is_caught}
use rover_mind.Prelude.Text.{Unicode}
use rover_mind.Float.{Float}
use rover_mind.Perception.{SceneObservation}
use rover_mind.Agent.{ActionParams}
use rover_mind.Agent.Tools.{Rig, Rover, Binding, outside, tool_call}
use rover_mind.Agent.Graph.{
  ToolCall, Message, system, human, ai, tool, arrived, failed_max_steps, RoverState, is_running,
  first_call, reason, answered, stop_update, look_update, after_tool, call_id, args_or, use_tool,
  dispatch, act_node, add_message,
}

module _ {Args : Type 0} where
  -- The message is an answer whose first tool call is of `stop`.
  abbrev pub CallsStop : Message Args → Type 0
  CallsStop m =
      (content : String) × (call : ToolCall Args) × (calls : List (ToolCall Args)) × (m
        ≡ ai content (call ∷ calls))
      × (str_eq call.name "stop" ≡ true)

  pub Any-append : (ms ns : List (Message Args)) → Any CallsStop ms → Any CallsStop (ms ++ ns)
  Any-append [] ns h = absurd h.0
  Any-append (m ∷ ms) ns (inl h) = inl h
  Any-append (m ∷ ms) ns (inr h) = inr (Any-append ms ns h)

  last-Any :
      (ms : List (Message Args)) (call : ToolCall Args)
      → first_call (get_last? ms) ≡ some call
      → str_eq call.name "stop" ≡ true
      → Any CallsStop ms
  last-Any [] call h e = cc
  last-Any (system t ∷ []) call h e = cc
  last-Any (human t ∷ []) call h e = cc
  last-Any (tool t i ∷ []) call h e = cc
  last-Any (ai t [] ∷ []) call h e = cc
  last-Any (ai t (c ∷ cs) ∷ []) call h e = inl (t, c, cs, refl, ground arith)
  last-Any (m ∷ n ∷ ms) call h e = inr (last-Any (n ∷ ms) call h e)

module _ {R Args : Type 0} where
  -- The node keeps the count, the task and the target; it never reaches the step limit; it lets the run arrive only where a
  -- message has called `stop`; a message that did stays.
  abbrev pub Progress : RoverState R Args → RoverState R Args → Type 0
  Progress s t =
      (t.step_count ≡ s.step_count)
      × (t.task ≡ s.task)
      × (t.target ≡ s.target)
      × (t.status ≡ failed_max_steps → s.status ≡ failed_max_steps)
      × (t.status ≡ arrived → (s.status ≡ arrived) ⊎ Any CallsStop t.messages)
      × (Any CallsStop s.messages → Any CallsStop t.messages)

  answered-Progress :
      {W : Type 0} (s : RoverState R Args) (r : Result (Message Args)) (w : W)
      → Ensures (Progress s) (answered s r, w)
  unfolding answered add_message
  answered-Progress s (err exc) w = elim (Bool-cases (is_caught exc)) [
    | inl caught ↦ rw caught (refl, refl, refl, λ h. cc, λ h. cc, λ h. h)
    | inr other ↦ rw other tt
  ]
  answered-Progress s (ok m) w =
      (refl, refl, refl, λ h. h, λ h. inl h, λ h. Any-append s.messages (m ∷ []) h)

  stop_update-Progress :
      (b : Bool) (why : String) (s t : RoverState R Args)
      → (b ≡ true → Any CallsStop t.messages)
      → Progress s t
      → Progress s (stop_update b why t)
  unfolding stop_update
  stop_update-Progress true why s t h (a, b, c, l, d, e) = (a, b, c, λ x. cc, λ x. inr (h refl), e)
  stop_update-Progress false why s t h p = p

  look_update-Progress :
      (b : Bool) (obs : Option (SceneObservation R)) (s t : RoverState R Args)
      → Progress s t
      → Progress s (look_update b obs t)
  unfolding look_update
  look_update-Progress true (some obs) s t p = p
  look_update-Progress true none s t p = p
  look_update-Progress false obs s t p = p

  after_tool-Progress :
      (name id stop_reason result_str : String) (s : RoverState R Args)
      (obs : Option (SceneObservation R))
      → (str_eq name "stop" ≡ true → Any CallsStop s.messages)
      → Progress s (after_tool name id stop_reason result_str s obs)
  unfolding after_tool add_message
  after_tool-Progress name id stop_reason result_str s obs h =
      let keep = Any-append s.messages (tool result_str id ∷ []) in
      look_update-Progress (str_eq name "look") obs s _ (
        stop_update-Progress (str_eq name "stop") stop_reason s _ (λ e. keep (h e))
          (refl, refl, refl, λ x. x, λ x. inl x, keep))

pub reason-Progress :
    {R W Args : Type 0} (llm : List (Message Args) → Io W (Message Args)) (s : RoverState R Args)
    (rig : Rig R W)
    → Ensures (Progress s) (reason llm s rig)
unfolding reason
reason-Progress llm s rig =
    answered-Progress s (llm s.messages rig.world).0 (outside (llm s.messages) rig).1

use_tool-Progress :
    {R W Args : Type 0} (name id stop_reason : String) (o : Option (Io (Rig R W) String))
    (s : RoverState R Args) (rig : Rig R W)
    → (str_eq name "stop" ≡ true → Any CallsStop s.messages)
    → Ensures (Progress s) (use_tool name id stop_reason o s rig)
unfolding use_tool add_message
use_tool-Progress name id stop_reason none s rig h =
    (refl, refl, refl, λ x. x, λ x. inl x, Any-append s.messages _)
use_tool-Progress name id stop_reason (some invoke) s rig h =
    Ensures-bind (Progress s) invoke
      (λ result_str rig'. (ok (after_tool name id stop_reason result_str s rig'.obs), rig')) rig
      (λ result_str rig'. after_tool-Progress name id stop_reason result_str s rig'.obs h)

module _ (u : Unicode) {R W Args : Type 0} ⦃f : Float R⦄ (rover : Rover R W)
    (params : ActionParams R) (bind : Binding Args) where
  dispatch-Progress :
      (o : Option (ToolCall Args)) (s : RoverState R Args) (rig : Rig R W)
      → first_call (get_last? s.messages) ≡ o
      → Ensures (Progress s) (dispatch u rover params bind o s rig)
  unfolding dispatch
  dispatch-Progress none s rig h = (refl, refl, refl, λ x. cc, λ x. cc, λ x. x)
  dispatch-Progress (some call) s rig h =
      let args : Args = args_or bind.no_args call.args in
      use_tool-Progress call.name (call_id call.id) (bind.reason args)
        (tool_call u rover params bind call.name args) s rig (last-Any s.messages call h)

  pub act_node-Progress :
      (s : RoverState R Args) (rig : Rig R W)
      → Ensures (Progress s) (act_node u rover params bind s rig)
  unfolding act_node
  act_node-Progress s rig = elim (Bool-cases (is_running s.status)) [
    | inl e ↦ rw e (dispatch-Progress (first_call (get_last? s.messages)) s rig refl)
    | inr e ↦ rw e (refl, refl, refl, λ x. x, λ x. inl x, λ x. x)
  ]
