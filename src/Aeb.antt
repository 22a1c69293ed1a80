-- ===== src/Aeb.antt =====
-- The decision logic of the emergency brake (safety_controller_layer/aeb_math.py).
pub mod Hysteresis
pub mod Range
pub mod Node
mod Tests
use rover_mind.Prelude.{
  ℕ, ◌+◌, String, Bool, true, false, ◌||◌, not, Option, none, some, List, [], ◌∷◌, ◌⊎◌, inl, inr,
  if◌then◌else◌,
}
use rover_mind.Prelude.Int.{pos}
use rover_mind.Float.{Float, nought}
use rover_mind.Control.{wrap_angle}

pub record AebParams (R : Type 0) : Type 0 where
  pub trigger_distance_m : R
  pub release_distance_m : R
  pub release_dwell_s : R
  pub forward_arc_deg : R
  pub output_rate_hz : R
  pub command_timeout_s : R
  pub scan_timeout_s : R

-- The state of `BrakeStateMachine`.
pub record Brake (R : Type 0) : Type 0 where
  pub braking : Bool
  pub clear_since : Option R

-- The fields of a `LaserScan` message that are read.
pub record Scan (R : Type 0) : Type 0 where
  pub ranges : List R
  pub angle_min : R
  pub angle_increment : R
  pub range_min : R

module _ {R : Type 0} ⦃f : Float R⦄ where
  open f use {lt, le, lit, add, sub, mul, abs, is_finite}

  -- The values of the dataclass's defaults.
  abbrev pub default_params : AebParams R
  default_params = record {
    trigger_distance_m = lit 40 2;
    release_distance_m = lit 60 2;
    release_dwell_s = lit 5 1;
    forward_arc_deg = lit 600 1;
    output_rate_hz = lit 200 1;
    command_timeout_s = lit 5 1;
    scan_timeout_s = lit 10 1;
  }

  -- `__post_init__`: `false` where the constructor raises `ValueError`.
  pub accepted : AebParams R → Bool
  accepted p = not (le p.release_distance_m p.trigger_distance_m)

  -- `gate_twist`: the linear and the angular velocity let through.
  pub gate_twist : R → R → Bool → R × R
  gate_twist linear_x angular_z true =
      if lt nought linear_x then (nought, angular_z) else (linear_x, angular_z)
  gate_twist linear_x angular_z false = (linear_x, angular_z)

  abbrev pub released : Brake R
  released = record { braking = false; clear_since = none }

  -- The branch of `update` that sees the path clear while braking.
  dwell : AebParams R → Option R → R → Brake R
  dwell p none now = record { braking = true; clear_since = some now }
  dwell p (some since) now =
      if le (sub p.release_dwell_s (lit 1 9)) (sub now since)
      then released
      else record { braking = true; clear_since = some since }

  -- `BrakeStateMachine.update`; its result is the field `braking` of the new state.
  pub update : AebParams R → Brake R → R → R → Brake R
  unfolding dwell
  update p s min_range now =
      if lt min_range p.trigger_distance_m
      then record { braking = true; clear_since = none }
      else if s.braking
      then (if lt p.release_distance_m min_range
          then dwell p s.clear_since now
          else record s { clear_since = none })
      else s

  -- The angle of a beam, wrapped to the forward direction at 0.
  beam_angle : Scan R → ℕ → R
  beam_angle s i = wrap_angle (add s.angle_min (mul (f.of_int (pos i)) s.angle_increment))

  -- The two tests after which the loop of `min_forward_range` does not `continue`.
  pub counts : Scan R → R → ℕ → R → Bool
  unfolding beam_angle
  counts s half i r =
      if lt half (abs (beam_angle s i))
      then false
      else if not (is_finite r) || lt r s.range_min
      then false
      else true

  -- One round of the loop: the new value of `nearest`.
  consider : Scan R → R → ℕ → R → R → R
  consider s half i nearest r =
      if counts s half i r then (if lt r nearest then r else nearest) else nearest

  scan_loop : Scan R → R → ℕ → R → List R → R
  scan_loop s half i nearest [] = nearest
  scan_loop s half i nearest (r ∷ rs) = scan_loop s half (i + 1) (consider s half i nearest r) rs

  -- `min_forward_range`, the message's fields gathered in the scan.
  pub min_forward_range : Scan R → R → R
  unfolding scan_loop consider counts
  min_forward_range s half = scan_loop s half 0 f.inf s.ranges
