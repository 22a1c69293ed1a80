-- ===== src/Agent/Graph.antt =====
-- The agent's graph (agent/state.py, agent/nodes.py, agent/graph.py, agent/prompts.py): the state, the
-- four nodes, and the run over their edges. The language model and the extraction of the target from
-- the task are parameters. A run has a budget of node executions, the `recursion_limit` of the graph
-- library, which raises once it is used up.
pub mod Keeping
pub mod Ending
pub mod Arrival
pub mod Commands
use rover_mind.Prelude.{
  ℕ, zero, suc, ◌+◌, String, ◌≡◌, Bool, true, false, Option, none, some, List, [], ◌∷◌, ◌++◌,
  if◌then◌else◌, str_eq, concat, get_last?,
}
use rover_mind.Prelude.Int.{ℤ, pos, leb_ℤ}
use rover_mind.Prelude.Io.{Io, Result, ok, err, is_caught, pure, ◌>>=◌, ◌>>◌}
use rover_mind.Prelude.Show.{show}
use rover_mind.Prelude.Text.{Unicode}
use rover_mind.Float.{Float}
use rover_mind.Perception.{SceneObservation}
use rover_mind.Agent.{ActionParams}
use rover_mind.Agent.Tools.{Rig, Rover, Binding, outside, tool_call}

-- A tool call of an answer; its arguments and its id may be missing.
pub record ToolCall (Args : Type 0) : Type 0 where
  pub name : String
  pub args : Option Args
  pub id : Option String

pub data Message (Args : Type 0) : Type 0 where
  system human : String → Message Args
  -- The content and the tool calls of an `AIMessage`.
  ai : String → List (ToolCall Args) → Message Args
  -- The content and the call's id of a `ToolMessage`.
  tool : String → String → Message Args

pub data Status : Type 0 where
  running arrived failed_max_steps aborted : Status

pub record RoverState (R Args : Type 0) : Type 0 where
  pub messages : List (Message Args)
  pub task : String
  pub target : String
  pub last_observation : Option (SceneObservation R)
  pub step_count : ℕ
  pub status : Status
  pub status_message : String

abbrev system_prompt : String
system_prompt = concat (
    "You control a rover with five tools: look, turn, forward, search, stop.\n"
    ∷ "Vision reports direction as {left, center, right} and distance as {close, medium, far}.\n"
    ∷ "\n" ∷ "Strategy:\n" ∷ "1. Call look(target) to find out where the target is.\n"
    ∷ "2. If not found, call search() and look again.\n"
    ∷ "3. Only if the target is clearly to one side, turn toward it (left -> turn left,\n"
    ∷ "   right -> turn right).\n"
    ∷ "4. If the target is centered, drive forward to approach it. \"center\" already\n"
    ∷ "   includes slight offsets, so prefer forward progress -- do not turn for small\n"
    ∷ "   left/right offsets, just drive toward a centered target.\n"
    ∷ "5. When the target is centered AND close, call stop(\"arrived\").\n" ∷ "\n"
    ∷ "Always call look between movements. Never act blind. One tool per turn." ∷ [])

-- `call.get("id", "tool_call")`
call_id : Option String → String
call_id none = "tool_call"
call_id (some id) = id

abbrev pub is_running : Status → Bool
is_running running = true
is_running _ = false

-- The latest message's first tool call, where it is an `AIMessage` with one.
abbrev pub first_call : {Args : Type 0} → Option (Message Args) → Option (ToolCall Args)
first_call (some (ai content (call ∷ calls))) = some call
first_call _ = none

-- The edges of the graph, by the node that runs next.
pub data Place : Type 0 where
  at_reason at_act at_check at_end : Place

pub data Outcome (S : Type 0) : Type 0 where
  finished : S → Outcome S
  -- The graph library's recursion error.
  out_of_steps : Outcome S

module _ {R Args : Type 0} where
  -- What `init_node` returns for a task.
  pub init_node : (String → String) → String → RoverState R Args
  init_node extract_target task = record {
    messages = system system_prompt ∷ human task ∷ [];
    task = task;
    target = extract_target task;
    last_observation = none;
    step_count = 0;
    status = running;
    status_message = "";
  }

  -- The reducer `add_messages` on one new message.
  add_message : RoverState R Args → Message Args → RoverState R Args
  add_message state m = record state { messages = state.messages ++ (m ∷ []) }

  pub check_node : ℤ → RoverState R Args → RoverState R Args
  check_node max_steps state =
      let new_count = state.step_count + 1 in
      if is_running state.status
      then (if leb_ℤ max_steps (pos new_count)
          then record state {
            step_count = new_count;
            status = failed_max_steps;
            status_message = concat ("hit max steps (" ∷ show max_steps ∷ ")" ∷ []);
          }
          else record state { step_count = new_count })
      else record state { step_count = new_count }

  pub should_continue : RoverState R Args → Place
  should_continue state = if is_running state.status then at_reason else at_end

  -- The two ends of `reason`: an exception of the model that `except Exception` catches aborts the run.
  pub answered : RoverState R Args → Result (Message Args) → Result (RoverState R Args)
  unfolding add_message
  answered state (ok message) = ok (add_message state message)
  answered state (err exc) =
      if is_caught exc
      then ok (record state {
        status = aborted;
        status_message = concat ("llm error: " ∷ exc.text ∷ []);
      })
      else err exc

  -- `if name == "stop"` at the end of `act_node`.
  pub stop_update : Bool → String → RoverState R Args → RoverState R Args
  stop_update true stop_reason state = record state {
    status = arrived;
    status_message = stop_reason;
  }
  stop_update false stop_reason state = state

  -- `if name == "look"` at the end of `act_node`.
  pub look_update : Bool → Option (SceneObservation R) → RoverState R Args → RoverState R Args
  look_update true (some obs) state = record state { last_observation = some obs }
  look_update true none state = state
  look_update false obs state = state

  -- The end of `act_node`, after the tool has returned.
  pub after_tool :
      String
      → String
      → String
      → String
      → RoverState R Args
      → Option (SceneObservation R)
      → RoverState R Args
  unfolding add_message stop_update look_update
  after_tool name id stop_reason result_str state obs =
      look_update (str_eq name "look") obs
        (stop_update (str_eq name "stop") stop_reason (add_message state (tool result_str id)))

-- The node that `make_reason_node` builds.
pub reason :
    {R W Args : Type 0}
    → (List (Message Args) → Io W (Message Args))
    → RoverState R Args
    → Io (Rig R W) (RoverState R Args)
unfolding answered
reason llm state rig = let (r, rig') = outside (llm state.messages) rig in (answered state r, rig')

-- `call.get("args", {})`
abbrev pub args_or : {Args : Type 0} → Args → Option Args → Args
args_or no_args none = no_args
args_or no_args (some args) = args

-- The branch of `act_node` on the tool that the name finds.
pub use_tool :
    {R W Args : Type 0}
    → String
    → String
    → String
    → Option (Io (Rig R W) String)
    → RoverState R Args
    → Io (Rig R W) (RoverState R Args)
unfolding after_tool add_message
use_tool name id stop_reason none state =
    pure (add_message state (tool (concat ("unknown tool: " ∷ name ∷ [])) id))
use_tool name id stop_reason (some invoke) state =
    invoke >>= λ result_str rig. (ok (after_tool name id stop_reason result_str state rig.obs), rig)

module _ (u : Unicode) {R W Args : Type 0} ⦃f : Float R⦄ (rover : Rover R W)
    (params : ActionParams R) (bind : Binding Args) where
  -- The branch of `act_node` on the first tool call of the latest message.
  pub dispatch : Option (ToolCall Args) → RoverState R Args → Io (Rig R W) (RoverState R Args)
  unfolding tool_call use_tool call_id
  dispatch none state =
      pure (record state { status = aborted; status_message = "no tool call on latest AIMessage" })
  dispatch (some call) state =
      let args = args_or bind.no_args call.args in
      use_tool call.name (call_id call.id) (bind.reason args)
        (tool_call u rover params bind call.name args) state

  pub act_node : RoverState R Args → Io (Rig R W) (RoverState R Args)
  unfolding dispatch
  act_node state =
      if is_running state.status
      then dispatch (first_call (get_last? state.messages)) state
      else pure state

  module _ (llm : List (Message Args) → Io W (Message Args)) (max_steps : ℤ) where
    -- The run from a node on, with a budget of node executions.
    pub run : ℕ → Place → RoverState R Args → Io (Rig R W) (Outcome (RoverState R Args))
    unfolding reason act_node check_node should_continue
    run budget at_end state = pure (finished state)
    run zero at_reason state = pure out_of_steps
    run zero at_act state = pure out_of_steps
    run zero at_check state = pure out_of_steps
    run (suc budget) at_reason state = reason llm state >>= run budget at_act
    run (suc budget) at_act state = act_node state >>= run budget at_check
    run (suc budget) at_check state =
        let state' = check_node max_steps state in run budget (should_continue state') state'

    -- `graph.invoke({"task": task})`, with its `init` node.
    unfoldable pub graph_invoke :
        (String → String) → ℕ → String → Io (Rig R W) (Outcome (RoverState R Args))
    unfolding run init_node
    graph_invoke extract_target zero task = pure out_of_steps
    graph_invoke extract_target (suc budget) task =
        run budget at_reason (init_node extract_target task)
