-- ===== src/Server/Main.antt =====
-- The process of the action server (main of safety_controller_layer/safety_controller_node.py), over
-- the calls of rclpy and of the node.
pub mod Stopping
mod Tests
use rover_mind.Prelude.{ℕ}
use rover_mind.Prelude.Io.{Io, pure, ◌>>=◌, ◌>>◌, finally_io, ignored, on_interrupt}
use rover_mind.Float.{Float, nought}

-- `rclpy.init`, the node, the executor with the node in it, `spin`, the warning, the publisher, and the
-- two calls that end the process.
pub record Process (R W : Type 0) : Type 0 where
  pub init : Io W Unit
  pub create_node : Io W Unit
  pub add_node : Io W Unit
  pub spin : Io W Unit
  pub warn : Io W Unit
  pub publish : R × R → Io W Unit
  pub destroy_node : Io W Unit
  pub shutdown : Io W Unit

module _ {R W : Type 0} ⦃f : Float R⦄ where
  -- `_publish_twist`
  unfoldable pub publish_twist : Process R W → R → R → Io W Unit
  publish_twist p linear_x angular_z = p.publish (linear_x, angular_z)

  -- The outer `finally`.
  unfoldable pub stop_process : Process R W → Io W Unit
  unfolding publish_twist
  stop_process p = ignored (publish_twist p nought nought) >> (ignored p.destroy_node >> p.shutdown)

  unfoldable pub main : Process R W → Io W ℕ
  unfolding stop_process
  main p =
      (p.init >> (p.create_node >> p.add_node))
      >> (finally_io (on_interrupt p.spin p.warn) (stop_process p) >>= λ done. pure 0)
