-- ===== src/Agent/Executor.antt =====
-- The action client of the rover (CommandExecutor and execute_command of agent/command_executor.py).
-- The calls of rclpy are a parameter: calls that have effects and may raise.
pub mod Delivery
mod Tests
use rover_mind.Prelude.{
  str_eq, ◌||◌, String, Bool, true, false, not, Option, none, some, List, [], ◌∷◌, if◌then◌else◌,
  concat,
}
use rover_mind.Prelude.Io.{ignored, Io, Result, ok, err, exception, pure, raise, lift, ◌>>=◌, ◌>>◌}
use rover_mind.Float.{Float}
use rover_mind.Agent.{ExecuteResult, validate_command}

-- `ActionClient` with `rclpy.spin_until_future_complete`. A spin gives what the future holds where it
-- is done within the timeout, the value being None or not.
pub record ActionClient (R W Sent Handle Pending : Type 0) : Type 0 where
  pub wait_for_server : R → Io W Bool
  -- the goal: `heading_degree` and `distance_m`
  pub send_goal_async : R → R → Io W Sent
  pub spin_sent : Sent → R → Io W (Option (Option Handle))
  pub is_accepted : Handle → Bool
  pub get_result_async : Handle → Io W Pending
  pub spin_result : Pending → R → Io W (Option (Option ExecuteResult))

-- `_server_timeout_s` and `_goal_timeout_s`.
pub record Timeouts (R : Type 0) : Type 0 where
  pub server_timeout_s : R
  pub goal_timeout_s : R

-- The calls of the constructor: whether rclpy could be imported, `ok()`, `init`, the new node, and the
-- action client on the node.
pub record Rclpy (W : Type 0) : Type 0 where
  pub is_available : Bool
  pub is_up : W → Bool
  pub init : Io W Unit
  pub create_node : Io W Unit
  pub create_client : Io W Unit

-- `CommandExecutor.__init__`, by whether it is given a node: whether it owns its node.
unfoldable pub construct_executor : {W : Type 0} → Rclpy W → Bool → Io W Bool
construct_executor rclpy given =
    if not rclpy.is_available
    then raise (
        exception "RuntimeError"
          "rclpy is not available; CommandExecutor only works inside a sourced ROS2 environment")
    else (λ w. (if rclpy.is_up w then pure tt else rclpy.init) w)
      >> ((if given then pure tt else rclpy.create_node)
          >> (rclpy.create_client >> pure (not given)))

module _ {R : Type 0} ⦃f : Float R⦄ where
  abbrev pub default_timeouts : Timeouts R
  default_timeouts = record { server_timeout_s = f.lit 50 1; goal_timeout_s = f.lit 700 1 }

  module _ {W Sent Handle Pending : Type 0} (client : ActionClient R W Sent Handle Pending)
      (timeouts : Timeouts R) where
    open client use {
      wait_for_server, send_goal_async, spin_sent, is_accepted, get_result_async, spin_result,
    }
    open timeouts use {server_timeout_s, goal_timeout_s}

    -- `ExecuteResult(success=False, message=...)`
    abbrev pub failure : List String → Io W ExecuteResult
    failure pieces = pure (record { success = false; message = concat pieces })

    -- The branch on the result future.
    unfoldable pub unwrapped : Option (Option ExecuteResult) → Io W ExecuteResult
    unwrapped none =
        failure (
          "goal result timed out after "
          ∷ f.fixed 1 goal_timeout_s
          ∷ "s (action server died?)"
          ∷ [])
    unwrapped (some none) = failure ("no result returned" ∷ [])
    unwrapped (some (some action_result)) = pure action_result

    unfoldable pub awaited : Handle → Io W ExecuteResult
    unfolding unwrapped
    awaited goal_handle = do
      result_future ← get_result_async goal_handle
      wrapped ← spin_result result_future goal_timeout_s
      unwrapped wrapped

    -- The branch on the future of the goal.
    unfoldable pub accepted_or : Option (Option Handle) → Io W ExecuteResult
    unfolding awaited
    accepted_or none = failure (
        "goal acceptance timed out after "
        ∷ f.fixed 1 server_timeout_s
        ∷ "s (server unresponsive?)"
        ∷ [])
    accepted_or (some none) = failure ("goal rejected" ∷ [])
    accepted_or (some (some goal_handle)) =
        if is_accepted goal_handle then awaited goal_handle else failure ("goal rejected" ∷ [])

    unfoldable pub sent_goal : R → R → Bool → Io W ExecuteResult
    unfolding accepted_or
    sent_goal heading_deg distance_m available =
        if not available
        then raise (
            exception "CommandExecutorError" (
              concat (
                "action server 'execute_command' not available within "
                ∷ f.fixed 1 server_timeout_s
                ∷ "s"
                ∷ [])))
        else (send_goal_async heading_deg distance_m >>= λ send_future.
            spin_sent send_future server_timeout_s >>= accepted_or)

    -- `CommandExecutor.execute`
    unfoldable pub execute : R → R → Io W ExecuteResult
    unfolding sent_goal validate_command
    execute heading_deg distance_m = lift (validate_command heading_deg distance_m) >>= λ checked.
        wait_for_server server_timeout_s >>= sent_goal heading_deg distance_m

    -- The singleton of the module, with whether `_default_executor` is there; `build` is the
    -- construction of `CommandExecutor()`.
    ensure_default : Io W Unit → Io (Bool × W) Unit
    ensure_default build (true, w) = (ok tt, (true, w))
    ensure_default build (false, w) =
        let (built, w') = build w in
        elim built [ ok tt ↦ (ok tt, (true, w')) | err e ↦ (err e, (false, w')) ]

    default_execute : R → R → Io (Bool × W) ExecuteResult
    unfolding execute
    default_execute heading_deg distance_m (there, w) =
        let (r, w') = execute heading_deg distance_m w in (r, (there, w'))

    -- `execute_command`
    unfoldable pub execute_command : Io W Unit → R → R → Io (Bool × W) ExecuteResult
    unfolding ensure_default default_execute
    execute_command build heading_deg distance_m =
        ensure_default build >>= λ built. default_execute heading_deg distance_m

    -- `CommandExecutor.close`, with `_owns_node`, `destroy_node` and `rclpy.shutdown`.
    unfoldable pub close : Bool → Io W Unit → Io W Unit → Io W Unit
    close owns_node destroy_node shutdown =
        if owns_node then ignored destroy_node >> ignored shutdown else pure tt
