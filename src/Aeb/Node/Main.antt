-- ===== src/Aeb/Node/Main.antt =====
-- The process of the braking node (main of safety_controller_layer/aeb_node.py), over the calls of rclpy.
pub mod Stopping
mod Tests
use rover_mind.Prelude.{ℕ, List}
use rover_mind.Prelude.Io.{Io, pure, ◌>>=◌, ◌>>◌, finally_io, ignored, on_interrupt}
use rover_mind.Float.{Float, nought}
use rover_mind.Aeb.Node.{Twist}

pub record Process (R W : Type 0) : Type 0 where
  pub init : Io W Unit
  pub create_node : Io W Unit
  pub spin : Io W Unit
  pub warn : Io W Unit
  pub publish : Twist R → Io W Unit
  pub destroy_node : Io W Unit
  pub shutdown : Io W Unit

-- `Twist()`
abbrev pub no_motion : {R : Type 0} → ⦃f : Float R⦄ → Twist R
no_motion = record { linear_x = nought; angular_z = nought }

module _ {R W : Type 0} ⦃f : Float R⦄ where
  -- The outer `finally`.
  unfoldable pub stop_process : Process R W → Io W Unit
  stop_process p = ignored (p.publish no_motion) >> (ignored p.destroy_node >> p.shutdown)

  unfoldable pub main : Process R W → Io W ℕ
  unfolding stop_process
  main p =
      (p.init >> p.create_node)
      >> (finally_io (on_interrupt p.spin p.warn) (stop_process p) >>= λ done. pure 0)
