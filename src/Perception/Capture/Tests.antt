-- ===== src/Perception/Capture/Tests.antt =====
-- A capture whose frame comes in the second round.
use rover_mind.Prelude.{ℕ, ◌*◌, String, ◌≡◌, refl, inl, inr, true, none, some, List, [], ◌∷◌, Any}
use rover_mind.Prelude.Int.{pos}
use rover_mind.Prelude.Io.{ok, err, mapped}
use rover_mind.Float.Fixed.{Fixed, num, fixed_float}
use rover_mind.Perception.Capture.{
  Round, Ros, setup, too_late, ros_capture_fn, ros_depth_capture_fn,
}
use rover_mind.Perception.Capture.Waiting.{IsLate, Gives, ros_capture_fn-Gives}

abbrev seconds : ℕ → Fixed
seconds n = num (pos (n * 1_000_000_000))

abbrev rounds : List (Round Fixed String)
rounds =
    record { now = seconds 10; spun = ok none }
    ∷ record { now = seconds 14; spun = ok (some "frame") }
    ∷ record { now = seconds 15; spun = ok none }
    ∷ []

abbrev ros : Ros Fixed String
ros = record {
  up = true;
  init = ok tt;
  node = ok tt;
  subscription = ok tt;
  start = seconds 10;
  rounds = rounds;
  destroy = ok tt;
}

in_time :
    ros_capture_fn ok ok ok "/camera" (seconds 5) ros
    ≡ record { outcome = some (ok "frame"); destroyed = true }
unfolding ros_capture_fn setup fixed_float
in_time = refl

-- Four seconds are one round too few.
too_short :
    (ros_depth_capture_fn ⦃f = fixed_float⦄ (λ msg. ok []) "/depth" (seconds 4) ros).outcome
    ≡ some (err (too_late "no depth frame on " "/depth" (seconds 4)))
unfolding ros_depth_capture_fn setup fixed_float
too_short = refl

ready : setup ros ≡ ok tt
unfolding setup
ready = refl

deadline_comes : Any (IsLate (seconds 15)) rounds
unfolding fixed_float
deadline_comes = inr (inr (inl refl))

ros_capture_fn-Gives_example :
    Gives
      (seconds 15)
      (ok tt)
      (too_late "no frame on " "/camera" (seconds 5))
      (λ msg. mapped ok (mapped ok (ok msg)))
      rounds
      (ros_capture_fn ok ok ok "/camera" (seconds 5) ros)
unfolding fixed_float
ros_capture_fn-Gives_example =
    ros_capture_fn-Gives ok ok ok "/camera" (seconds 5) ros ready deadline_comes
