-- ===== src/Control/Tests.antt =====
-- The control loops on a short script of sensor readings.
use rover_mind.Prelude.{ℕ, ◌≡◌, ◌≢◌, ◌≤◌, ◌+◌, ◌*◌, refl, inr, false, List, [], ◌∷◌, length}
use rover_mind.Prelude.Int.{pos}
use rover_mind.Float.{nought}
use rover_mind.Float.Fixed.{Fixed, num, fixed_float}
use rover_mind.Control.{
  ControllerParams, default_params, wrap_angle, proportional_turn, rotate_timeout_seconds,
  drive_timeout_seconds, displacement,
}
use rover_mind.Control.Loops.{
  Tick, value, waiting, returned, rotate_to_heading, drive_distance, execute_command,
}
use rover_mind.Control.Loops.Ending.{rotate_to_heading_ends, drive_distance_ends}
use rover_mind.Control.Loops.Success.{Turned, Drove, execute_command_achieves}

abbrev params : ControllerParams Fixed
params = default_params

abbrev whole : ℕ → Fixed
whole n = num (pos (n * 1_000_000_000))

-- The rover turns by one radian and a half and drives a metre, a second to each tick.
abbrev tick_at : ℕ → Fixed → Fixed → Tick Fixed
tick_at second yaw x = record {
  yaw = value yaw;
  position = value (x, nought);
  abort = false;
  now = whole second;
}

abbrev quarter_turn : Fixed
quarter_turn = num (pos 1_570_796_370)

abbrev script : List (Tick Fixed)
script =
    tick_at 0 nought nought
    ∷ tick_at 1 nought nought
    ∷ tick_at 2 quarter_turn nought
    ∷ tick_at 3 quarter_turn nought
    ∷ tick_at 4 quarter_turn nought
    ∷ tick_at 5 quarter_turn (whole 1)
    ∷ []

ninety : (execute_command params (whole 90) (whole 1) script).outcome ≡ returned
unfolding execute_command wrap_angle proportional_turn rotate_timeout_seconds drive_timeout_seconds
    displacement fixed_float
ninety = refl

execute_command_achieves_example :
    Turned params (fixed_float.radians (whole 90)) script
    × Drove (whole 1) (rotate_to_heading params (fixed_float.radians (whole 90)) script).rest
unfolding execute_command wrap_angle proportional_turn rotate_timeout_seconds drive_timeout_seconds
    displacement fixed_float
execute_command_achieves_example = execute_command_achieves params (whole 90) (whole 1) script refl

-- The heading never changes; at 40 s the budget of at most 30 s is spent.
abbrev stuck : Tick Fixed
stuck = tick_at 40 nought nought

rotate_to_heading_ends_example :
    ((rotate_to_heading params (whole 1) (tick_at 0 nought nought ∷ stuck ∷ [])).outcome ≢ waiting)
    × (length (rotate_to_heading params (whole 1) (tick_at 0 nought nought ∷ stuck ∷ [])).published
        ≤ 0 + 1)
unfolding rotate_timeout_seconds fixed_float
rotate_to_heading_ends_example =
    rotate_to_heading_ends params (whole 1) (tick_at 0 nought nought) (stuck ∷ []) 0 stuck refl
      (inr refl)

drive_distance_ends_example :
    ((drive_distance params (whole 1) (tick_at 0 nought nought ∷ stuck ∷ [])).outcome ≢ waiting)
    × (length (drive_distance params (whole 1) (tick_at 0 nought nought ∷ stuck ∷ [])).published
        ≤ 0 + 1)
unfolding drive_timeout_seconds fixed_float
drive_distance_ends_example =
    drive_distance_ends params (whole 1) (tick_at 0 nought nought) (stuck ∷ []) 0 stuck refl
      (inr refl)
