-- ===== src/Server/Tests.antt =====
-- Goals on concrete samples: one that completes, and one on a node without odometry.
use rover_mind.Prelude.{
  ℕ, ◌*◌, ◌≡◌, ◌≢◌, ◌⊎◌, ◌↔◌, refl, sym, ◌∙◌, true, false, some, none, Option, List, [], ◌∷◌, map,
  get_last?,
}
use rover_mind.Prelude.Int.{pos}
use rover_mind.Float.{nought}
use rover_mind.Float.Fixed.{Fixed, num, fixed_float}
use rover_mind.Control.{
  ControllerParams, default_params, wrap_angle, proportional_turn, rotate_timeout_seconds,
  drive_timeout_seconds, displacement,
}
use rover_mind.Control.Loops.{halt, rotate_to_heading, drive_distance}
use rover_mind.Control.Loops.Success.{Turned, Drove}
use rover_mind.Server.{
  Node, Goal, Sample, succeeded, aborted, crashed, executing, tick_of, execute_callback,
}
use rover_mind.Server.Goals.{execute_callback_halts, execute_callback_success}

abbrev params : ControllerParams Fixed
params = default_params

abbrev whole : ℕ → Fixed
whole n = num (pos (n * 1_000_000_000))

abbrev idle : Node Fixed
idle = record { latest_yaw = none; latest_xy = none; active_goal = none }

-- Turn by 90 degrees and drive one metre.
abbrev goal : Goal Fixed
goal = record { handle = "g1"; heading_degree = whole 90; distance_m = whole 1 }

abbrev sample : ℕ → Fixed → Option (Fixed × Fixed) → Sample Fixed
sample second yaw xy = record {
  yaw = some yaw;
  xy = xy;
  cancel_requested = false;
  now = whole second;
}

abbrev quarter_turn : Fixed
quarter_turn = num (pos 1_570_796_370)

abbrev samples : List (Sample Fixed)
samples =
    sample 0 nought none
    ∷ sample 1 nought none
    ∷ sample 2 quarter_turn none
    ∷ sample 3 quarter_turn (some (nought, nought))
    ∷ sample 4 quarter_turn (some (whole 1, nought))
    ∷ []

-- No odometry when the drive begins.
abbrev blind : List (Sample Fixed)
blind = sample 0 nought none ∷ sample 1 quarter_turn none ∷ sample 2 quarter_turn none ∷ []

completes : (execute_callback params idle goal samples).status ≡ succeeded
unfolding execute_callback rotate_to_heading drive_distance wrap_angle proportional_turn
    rotate_timeout_seconds drive_timeout_seconds displacement fixed_float
completes = refl

aborts_blind : (execute_callback params idle goal blind).status ≡ aborted
unfolding execute_callback rotate_to_heading drive_distance wrap_angle proportional_turn
    rotate_timeout_seconds drive_timeout_seconds displacement fixed_float
aborts_blind = refl

aborted-ne-executing : aborted ≢ executing
aborted-ne-executing e = cc

aborted-ne-crashed : aborted ≢ crashed
aborted-ne-crashed e = cc

execute_callback_halts_example :
    let e = execute_callback params idle goal blind in
    ((e.published ≡ []) × (e.status ≡ aborted)) ⊎ (get_last? e.published ≡ some halt)
execute_callback_halts_example =
    execute_callback_halts params idle goal blind (λ e. aborted-ne-executing (sym aborts_blind ∙ e))
      (λ e. aborted-ne-crashed (sym aborts_blind ∙ e))

execute_callback_success_example :
    let e = execute_callback params idle goal samples in
    let ts = map (tick_of (some goal.handle)) samples in
    ((e.success ≡ true) ↔ (e.status ≡ succeeded))
    × (e.success ≡ true
        → (idle.active_goal ≡ none)
          × (Turned params (fixed_float.radians goal.heading_degree) ts)
          × Drove goal.distance_m
              (rotate_to_heading params (fixed_float.radians goal.heading_degree) ts).rest)
execute_callback_success_example = execute_callback_success params idle goal samples
