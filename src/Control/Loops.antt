-- ===== src/Control/Loops.antt =====
-- The loops of `SafetyController` (control_math.py). The callables that it was given are read as a
-- script of ticks: a tick holds what `get_yaw`, `get_position`, `should_abort` and `now` answer
-- until the next `sleep`, of which each round of a loop asks each at most once. The first tick
-- answers the calls before the loop. A loop whose script ends is still waiting.
pub mod Bounded
pub mod Ending
pub mod Success
use rover_mind.Prelude.{
  String, ◌≡◌, refl, ◌⊎◌, inl, inr, Bool, true, false, ◌&&◌, List, [], ◌∷◌, ◌++◌, if◌then◌else◌,
  concat,
}
use rover_mind.Float.{Float, nought}
use rover_mind.Control.{
  ControllerParams, wrap_angle, proportional_turn, rotate_timeout_seconds, drive_timeout_seconds,
  displacement,
}

-- What a sensor callable does: it returns a value, or raises a RuntimeError with a text.
pub data Reading (A : Type 0) : Type 0 where
  value : A → Reading A
  failed : String → Reading A

pub record Tick (R : Type 0) : Type 0 where
  pub yaw : Reading R
  pub position : Reading (R × R)
  pub abort : Bool
  pub now : R

-- ControllerCancelledError, ControllerTimeoutError, the sensors' RuntimeError, ZeroDivisionError.
pub data ControlError : Type 0 where
  cancelled timed_out sensor : String → ControlError
  zero_division : ControlError

pub data Outcome : Type 0 where
  waiting returned : Outcome
  raised : ControlError → Outcome

-- The calls `publish(linear, angular)` made so far, how the call ended, and the ticks left.
pub record Run (R : Type 0) : Type 0 where
  pub published : List (R × R)
  pub outcome : Outcome
  pub rest : List (Tick R)

-- What a loop makes of its reading: whether the goal is reached, and else the twist to publish.
pub record Seen (R : Type 0) : Type 0 where
  pub reached : Bool
  pub motion : R × R

-- The two loops of the class differ in what they read and in their error texts.
pub record Phase (R : Type 0) : Type 0 where
  pub observe : Tick R → Reading (Seen R)
  pub cancel_text : String
  pub timeout_text : String

abbrev pub map_reading : {A B : Type 0} → (A → B) → Reading A → Reading B
map_reading g (value a) = value (g a)
map_reading g (failed m) = failed m

-- One call after another: the second is made where the first returns.
abbrev pub and_then : {R : Type 0} → Run R → (List (Tick R) → Run R) → Run R
and_then r next = elim r.outcome [
  | returned ↦ let s = next r.rest in record s { published = r.published ++ s.published }
  | _ ↦ r
]

pub Reading-cases :
    {A : Type 0} (x : Reading A) → ((m : String) × (x ≡ failed m)) ⊎ ((a : A) × (x ≡ value a))
Reading-cases (failed m) = inl (m, refl)
Reading-cases (value a) = inr (a, refl)

module _ {R : Type 0} ⦃f : Float R⦄ where
  open f use {lt, le, lit, add, sub, abs, radians}

  abbrev pub halt : R × R
  halt = (nought, nought)

  -- `self._publish(0.0, 0.0)` and the end of the call.
  abbrev stop : Outcome → List (Tick R) → Run R
  stop o ts = record { published = halt ∷ []; outcome = o; rest = ts }

  abbrev quit : Outcome → List (Tick R) → Run R
  quit o ts = record { published = []; outcome = o; rest = ts }

  abbrev publish : R × R → Run R → Run R
  publish t r = record r { published = t ∷ r.published }

  -- One `while True` loop: read the sensor, and then the three tests in their order.
  unfoldable pub control_loop : Phase R → R → List (Tick R) → Run R
  control_loop ph deadline [] = quit waiting []
  control_loop ph deadline (t ∷ ts) =
      let next = control_loop ph deadline ts in
      elim (ph.observe t) [
        | failed m ↦ quit (raised (sensor m)) ts
        | value seen ↦
            if seen.reached
            then stop returned ts
            else if t.abort
            then stop (raised (cancelled ph.cancel_text)) ts
            else if le deadline t.now
            then stop (raised (timed_out ph.timeout_text)) ts
            else publish seen.motion next
      ]

  -- `1.0 / x` raises where x is zero.
  is_zero : R → Bool
  is_zero x = le x nought && le nought x

  -- The body of the loop in `rotate_to_heading`.
  unfoldable pub rotate_phase : ControllerParams R → R → R → Phase R
  rotate_phase p heading_delta_rad target_yaw = record {
    observe = λ t.
        map_reading
          (λ yaw.
            let error = wrap_angle (sub target_yaw yaw) in
            record {
              reached = lt (abs error) p.heading_tolerance_rad;
              motion = (nought, proportional_turn error p);
            })
          t.yaw;
    cancel_text = "rotate_to_heading cancelled";
    timeout_text = concat (
        "rotate_to_heading did not converge within budget (target_delta="
        ∷ f.fixed 3 heading_delta_rad
        ∷ " rad)"
        ∷ []);
  }

  -- The body of the loop in `drive_distance`.
  unfoldable pub drive_phase : ControllerParams R → R → R × R → Phase R
  drive_phase p distance_m start_xy = record {
    observe = λ t.
        map_reading
          (λ xy. record {
            reached = le distance_m (displacement start_xy xy);
            motion = (p.max_linear, nought);
          })
          t.position;
    cancel_text = "drive_distance cancelled";
    timeout_text = concat (
        "drive_distance did not converge within budget (target_distance="
        ∷ f.fixed 3 distance_m
        ∷ " m)"
        ∷ []);
  }

  rotate_begin : ControllerParams R → R → List (Tick R) → Run R
  rotate_begin p heading_delta_rad [] = quit waiting []
  rotate_begin p heading_delta_rad (t ∷ ts) = elim t.yaw [
    | failed m ↦ quit (raised (sensor m)) ts
    | value start_yaw ↦
        control_loop (rotate_phase p heading_delta_rad (add start_yaw heading_delta_rad))
          (add t.now (rotate_timeout_seconds heading_delta_rad p)) ts
  ]

  unfoldable pub rotate_to_heading : ControllerParams R → R → List (Tick R) → Run R
  unfolding rotate_begin is_zero control_loop rotate_phase
  rotate_to_heading p heading_delta_rad ts =
      if is_zero p.loop_rate_hz
      then quit (raised zero_division) ts
      else rotate_begin p heading_delta_rad ts

  drive_begin : ControllerParams R → R → List (Tick R) → Run R
  drive_begin p distance_m [] = quit waiting []
  drive_begin p distance_m (t ∷ ts) = elim t.position [
    | failed m ↦ quit (raised (sensor m)) ts
    | value start_xy ↦
        control_loop (drive_phase p distance_m start_xy)
          (add t.now (drive_timeout_seconds distance_m p)) ts
  ]

  unfoldable pub drive_distance : ControllerParams R → R → List (Tick R) → Run R
  unfolding drive_begin is_zero control_loop drive_phase
  drive_distance p distance_m ts =
      if is_zero p.loop_rate_hz then quit (raised zero_division) ts else drive_begin p distance_m ts

  unfoldable pub execute_command : ControllerParams R → R → R → List (Tick R) → Run R
  unfolding rotate_to_heading drive_distance
  execute_command p heading_degree distance_m ts =
      and_then (rotate_to_heading p (radians heading_degree) ts) (drive_distance p distance_m)
