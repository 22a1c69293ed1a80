-- ===== src/Server/Main/Tests.antt =====
-- A process that is interrupted while it spins; the world is what was published.
use rover_mind.Prelude.{◌≡◌, refl, List, [], ◌∷◌}
use rover_mind.Prelude.Io.{ok, err, exception, pure, raise}
use rover_mind.Float.{nought, one}
use rover_mind.Float.Fixed.{Fixed, fixed_float}
use rover_mind.Server.Main.{Process, main}

-- What was published, the latest first.
abbrev Topic : Type 0
Topic = List (Fixed × Fixed)

abbrev process : Process Fixed Topic
process = record {
  init = pure tt;
  create_node = pure tt;
  add_node = pure tt;
  spin = λ topic. (err (exception "KeyboardInterrupt" ""), (one, nought) ∷ topic);
  warn = pure tt;
  publish = λ twist topic. (ok tt, twist ∷ topic);
  destroy_node = raise (exception "RCLError" "");
  shutdown = pure tt;
}

interrupted : main process [] ≡ (ok 0, (nought, nought) ∷ (one, nought) ∷ [])
unfolding main
interrupted = refl
