-- ===== src/Rover.antt =====
-- The rover as a whole: the agent's command over the bridge, through the action client
-- (agent/command_executor.py), to the action server (safety_controller_layer/safety_controller_node.py),
-- and its twists through the braking node (safety_controller_layer/aeb_node.py). The topics and the
-- action protocol of ROS are given by hypotheses.
pub mod Motion
pub mod Command
pub mod Run
mod Tests
use rover_mind.Prelude.{List, [], ◌∷◌, ◌++◌}
use rover_mind.Float.{Float}
use rover_mind.Control.{ControllerParams}
use rover_mind.Server.{Node, Goal, Sample, execute_callback}

-- Goals executed one after the other, each over its samples: all twists that the server publishes.
unfoldable pub publish_goals :
    {R : Type 0}
    → ⦃f : Float R⦄ → ControllerParams R
    → Node R
    → List (Goal R × List (Sample R))
    → List (R × R)
publish_goals p n [] = []
publish_goals p n ((goal, samples) ∷ goals) =
    let e = execute_callback p n goal samples in e.published ++ publish_goals p e.node goals
