-- ===== src/Server/Main/Stopping.antt =====
-- The end of the process (main of safety_controller_layer/safety_controller_node.py).
use rover_mind.Prelude.{◌≡◌, ◌⊎◌, inl, inr}
use rover_mind.Prelude.Io.{Exception, err, ok, ◌>>◌, on_interrupt, Result-cases}
use rover_mind.Prelude.Io.Finally.{ignored_first_keeps, process_keeps}
use rover_mind.Float.{Float, nought}
use rover_mind.Server.Main.{Process, publish_twist, stop_process, main}

module _ {R W : Type 0} ⦃f : Float R⦄ (p : Process R W) (Stopped : W → Type 0)
    (stops : (w : W)
      → (p.publish (nought, nought) w).0 ≡ ok tt
      → Stopped (p.publish (nought, nought) w).1)
    (destroyed : (w : W) → Stopped w → Stopped (p.destroy_node w).1)
    (shut_down : (w : W) → Stopped w → Stopped (p.shutdown w).1) where
  stop_process_stops :
      (w : W) → Stopped (p.publish (nought, nought) w).1 → Stopped (stop_process p w).1
  unfolding stop_process publish_twist
  stop_process_stops =
      ignored_first_keeps Stopped (p.publish (nought, nought)) p.destroy_node p.shutdown destroyed
        shut_down

  -- Where the rover stands once a publication of the zero twist has returned, and neither destroying
  -- the node nor shutting rclpy down moves it, it stands at the end of a process whose node came up,
  -- however its spinning ends, by returning, by an interrupt, or by any other exception, unless the
  -- publication of the zero twist after the spinning raises.
  pub main-IsStopped :
      (w up : W)
      → (p.init >> (p.create_node >> p.add_node)) w ≡ (ok tt, up)
      → Stopped (main p w).1
        ⊎ ((e : Exception) × ((p.publish (nought, nought) (on_interrupt p.spin p.warn up).1).0
              ≡ err e))
  unfolding main
  main-IsStopped w up begun =
      let spun = (on_interrupt p.spin p.warn up).1 in
      elim (Result-cases (p.publish (nought, nought) spun).0) [
        | inl raises ↦ inr raises
        | inr (tt, returns) ↦ inl (
            process_keeps Stopped (p.init >> (p.create_node >> p.add_node))
              (on_interrupt p.spin p.warn) (stop_process p) 0 w up begun
              (stop_process_stops spun (stops spun returns)))
      ]
