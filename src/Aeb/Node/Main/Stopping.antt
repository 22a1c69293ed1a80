-- ===== src/Aeb/Node/Main/Stopping.antt =====
-- The end of the braking node's process (main of safety_controller_layer/aeb_node.py).
use rover_mind.Prelude.{◌≡◌, ◌⊎◌, inl, inr}
use rover_mind.Prelude.Io.{Exception, err, ok, ◌>>◌, on_interrupt, Result-cases}
use rover_mind.Prelude.Io.Finally.{ignored_first_keeps, process_keeps}
use rover_mind.Float.{Float}
use rover_mind.Aeb.Node.Main.{Process, no_motion, stop_process, main}

module _ {R W : Type 0} ⦃f : Float R⦄ (p : Process R W) (Stopped : W → Type 0)
    (stops : (w : W) → (p.publish no_motion w).0 ≡ ok tt → Stopped (p.publish no_motion w).1)
    (destroyed : (w : W) → Stopped w → Stopped (p.destroy_node w).1)
    (shut_down : (w : W) → Stopped w → Stopped (p.shutdown w).1) where
  -- Where the wheels stand once a publication of the zero twist has returned, and neither destroying
  -- the node nor shutting rclpy down moves them, they stand at the end of a process whose node came
  -- up, however its spinning ends, by returning, by an interrupt, or by any other exception, unless
  -- the publication of the zero twist after the spinning raises, which the process passes over.
  pub main-IsHalted :
      (w up : W)
      → (p.init >> p.create_node) w ≡ (ok tt, up)
      → Stopped (main p w).1
        ⊎ ((e : Exception) × ((p.publish no_motion (on_interrupt p.spin p.warn up).1).0 ≡ err e))
  unfolding main stop_process
  main-IsHalted w up begun =
      let spun = (on_interrupt p.spin p.warn up).1 in
      elim (Result-cases (p.publish no_motion spun).0) [
        | inl raises ↦ inr raises
        | inr (tt, returns) ↦ inl (
            process_keeps Stopped (p.init >> p.create_node) (on_interrupt p.spin p.warn)
              (stop_process p) 0 w up begun
              (ignored_first_keeps Stopped (p.publish no_motion) p.destroy_node p.shutdown destroyed
                shut_down spun (stops spun returns)))
      ]
