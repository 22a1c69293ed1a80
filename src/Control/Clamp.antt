-- ===== src/Control/Clamp.antt =====
-- The range of the control arithmetic of control_math.py.
use rover_mind.Prelude.{◌≡◌, true}
use rover_mind.Float.{Float}
use rover_mind.Float.Order.{clamp_bounds}
use rover_mind.Control.{
  ControllerParams, wrap_angle, proportional_turn, rotate_timeout_seconds, drive_timeout_seconds,
}

module _ {R : Type 0} ⦃f : Float R⦄ where
  open f use {le, neg, pi, add, is_finite, mul, lit, rem, sub}

  -- The turn rate never passes the maximum in either direction, whatever the heading error is, also
  -- where it is NaN or infinite.
  pub proportional_turn_bounds :
      (error_rad : R) (p : ControllerParams R)
      → le (neg p.max_angular) p.max_angular ≡ true
      → (le (neg p.max_angular) (proportional_turn error_rad p) ≡ true)
        × (le (proportional_turn error_rad p) p.max_angular ≡ true)
  unfolding proportional_turn
  proportional_turn_bounds error_rad p h =
      clamp_bounds (neg p.max_angular) p.max_angular (mul p.heading_kp error_rad) h

  -- Both timeout budgets lie between the least and the greatest timeout, for every command, also
  -- where a speed limit is zero or the command is NaN.
  pub timeout_bounds :
      (amount : R) (p : ControllerParams R)
      → le p.min_timeout_s p.max_timeout_s ≡ true
      → (le p.min_timeout_s (rotate_timeout_seconds amount p) ≡ true)
        × (le (rotate_timeout_seconds amount p) p.max_timeout_s ≡ true)
        × (le p.min_timeout_s (drive_timeout_seconds amount p) ≡ true)
        × (le (drive_timeout_seconds amount p) p.max_timeout_s ≡ true)
  unfolding rotate_timeout_seconds drive_timeout_seconds
  timeout_bounds amount p h =
      let (a, b) = clamp_bounds p.min_timeout_s p.max_timeout_s _ h in
      let (c, d) = clamp_bounds p.min_timeout_s p.max_timeout_s _ h in (a, b, c, d)

  -- A wrapped angle lies between -pi and pi, for every angle whose sum with pi is finite.
  pub wrap_angle_bounds :
      (rad : R)
      → is_finite (add rad pi) ≡ true
      → (le (neg pi) (wrap_angle rad) ≡ true) × (le (wrap_angle rad) pi ≡ true)
  unfolding wrap_angle
  wrap_angle_bounds rad h =
      let (down, zero_low, pi_finite, two_finite, two_positive) = f.two_pi in
      let low =
        f.sub_mono _ _ pi pi_finite
          (f.rem_low (add rad pi) (mul (lit 2 0) pi) h two_finite two_positive) in
      let high =
        f.sub_mono _ _ pi pi_finite
          (f.rem_high (add rad pi) (mul (lit 2 0) pi) h two_finite two_positive) in
      (rw zero_low at low, rw down at high)
