-- ===== src/Control.antt =====
-- The control arithmetic and the control loops (safety_controller_layer/control_math.py).
pub mod Clamp
pub mod Loops
mod Tests
use rover_mind.Prelude.{
  ℕ, ◌+◌, String, Bool, true, false, ◌||◌, not, Option, none, some, List, [], ◌∷◌, if◌then◌else◌,
}
use rover_mind.Float.{Float, nought, one, max, min}

pub record ControllerParams (R : Type 0) : Type 0 where
  pub max_linear : R
  pub max_angular : R
  pub heading_tolerance_rad : R
  pub heading_kp : R
  pub loop_rate_hz : R
  pub timeout_safety_margin_s : R
  pub min_timeout_s : R
  pub max_timeout_s : R

module _ {R : Type 0} ⦃f : Float R⦄ where
  open f use {lt, le, lit, add, sub, mul, quot, rem, abs, neg, pi, sqrt}

  abbrev pub default_params : ControllerParams R
  default_params = record {
    max_linear = lit 3 1;
    max_angular = lit 5 1;
    heading_tolerance_rad = lit 35 3;
    heading_kp = lit 10 1;
    loop_rate_hz = lit 200 1;
    timeout_safety_margin_s = lit 20 1;
    min_timeout_s = lit 10 1;
    max_timeout_s = lit 300 1;
  }

  unfoldable pub wrap_angle : R → R
  wrap_angle rad = sub (rem (add rad pi) (mul (lit 2 0) pi)) pi

  unfoldable pub proportional_turn : R → ControllerParams R → R
  proportional_turn error_rad p =
      let raw = mul p.heading_kp error_rad in max (neg p.max_angular) (min p.max_angular raw)

  -- `if x > 0` compares with the integer 0.
  unfoldable pub rotate_timeout_seconds : R → ControllerParams R → R
  rotate_timeout_seconds heading_delta_rad p =
      let nominal =
        if lt (lit 0 0) p.max_angular
        then quot (abs heading_delta_rad) p.max_angular
        else p.max_timeout_s in
      let budget = add nominal p.timeout_safety_margin_s in
      max p.min_timeout_s (min p.max_timeout_s budget)

  unfoldable pub drive_timeout_seconds : R → ControllerParams R → R
  drive_timeout_seconds distance_m p =
      let nominal =
        if lt (lit 0 0) p.max_linear then quot (abs distance_m) p.max_linear else p.max_timeout_s in
      let budget = add nominal p.timeout_safety_margin_s in
      max p.min_timeout_s (min p.max_timeout_s budget)

  -- Euclidean distance between two points.
  unfoldable pub displacement : R × R → R × R → R
  displacement start current =
      let dx = sub current.0 start.0 in
      let dy = sub current.1 start.1 in sqrt (add (mul dx dx) (mul dy dy))
