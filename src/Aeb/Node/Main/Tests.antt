-- ===== src/Aeb/Node/Main/Tests.antt =====
-- A node that crashes while it spins; the world is what was published.
use rover_mind.Prelude.{◌≡◌, refl, ◌⊎◌, List, [], ◌∷◌}
use rover_mind.Prelude.Io.{Exception, on_interrupt, ok, err, exception, pure, raise}
use rover_mind.Float.{nought, one}
use rover_mind.Float.Fixed.{Fixed, fixed_float}
use rover_mind.Aeb.Node.{Twist}
use rover_mind.Aeb.Node.Main.{Process, no_motion, main}
use rover_mind.Aeb.Node.Main.Stopping.{main-IsHalted}

-- What was published, the latest first.
abbrev Topic : Type 0
Topic = List (Twist Fixed)

abbrev ahead : Twist Fixed
ahead = record { linear_x = one; angular_z = nought }

abbrev process : Process Fixed Topic
process = record {
  init = pure tt;
  create_node = pure tt;
  spin = λ topic. (err (exception "RuntimeError" "lost"), ahead ∷ topic);
  warn = pure tt;
  publish = λ twist topic. (ok tt, twist ∷ topic);
  destroy_node = raise (exception "RCLError" "");
  shutdown = pure tt;
}

abbrev IsHalted : Topic → Type 0
IsHalted [] = ⊥
IsHalted (last ∷ before) = last ≡ no_motion

main-IsHalted_example :
    IsHalted (main process []).1
    ⊎ ((e : Exception) × ((process.publish no_motion
            (on_interrupt process.spin process.warn []).1).0
          ≡ err e))
main-IsHalted_example =
    main-IsHalted process IsHalted (λ w returns. refl) (λ w h. h) (λ w h. h) [] [] refl
