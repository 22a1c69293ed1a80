-- ===== src/Control/Loops/Bounded.antt =====
-- The range of the twists that the controller publishes (control_math.py).
use rover_mind.Prelude.{◌≡◌, refl, ◌⊎◌, inl, inr, true, List, [], ◌∷◌, arith, All, All-append}
use rover_mind.Float.{Float, nought}
use rover_mind.Control.{ControllerParams, wrap_angle, rotate_timeout_seconds, drive_timeout_seconds}
use rover_mind.Control.Clamp.{proportional_turn_bounds}
use rover_mind.Control.Loops.{
  value, Reading-cases, Tick, Outcome, waiting, returned, raised, Run, Seen, Phase, halt,
  control_loop, rotate_phase, rotate_to_heading, drive_phase, drive_distance, and_then,
  execute_command,
}

module _ {R : Type 0} ⦃f : Float R⦄ where
  open f use {le, neg, radians}

  -- Standing still, turning in place within the limit, or driving straight at the set speed.
  abbrev pub IsBounded : ControllerParams R → R × R → Type 0
  IsBounded p (linear, angular) =
      ((linear ≡ nought) × (angular ≡ nought))
      ⊎ (((linear ≡ nought)
            × (le (neg p.max_angular) angular ≡ true)
            × (le angular p.max_angular ≡ true))
          ⊎ ((linear ≡ p.max_linear) × (angular ≡ nought)))

  -- What the loop publishes is its stop, or a motion that its body computed from a reading.
  control_loop-All :
      (P : R × R → Type 0) (ph : Phase R) (deadline : R)
      → P halt
      → ((t : Tick R) (seen : Seen R) → ph.observe t ≡ value seen → P seen.motion)
      → (ts : List (Tick R)) → All P (control_loop ph deadline ts).published
  unfolding control_loop
  control_loop-All P ph deadline h m [] = tt
  control_loop-All P ph deadline h m (t ∷ ts) = elim (Reading-cases (ph.observe t)) [
    | inl (text, e) ↦ rw (e, control_loop) tt
    | inr (seen, e) ↦ ground (arith, control_loop-All P ph deadline h m ts, m t seen e)
  ]

  module _ (p : ControllerParams R) (limit : le (neg p.max_angular) p.max_angular ≡ true) where
    rotate_phase-IsBounded :
        (delta target : R) (t : Tick R) (seen : Seen R)
        → (rotate_phase p delta target).observe t ≡ value seen
        → IsBounded p seen.motion
    unfolding rotate_phase
    rotate_phase-IsBounded delta target t seen e = elim (Reading-cases t.yaw) [
      | inl (text, no_yaw) ↦ absurd (ground arith)
      | inr (yaw, read) ↦
          ground (arith, proportional_turn_bounds (wrap_angle (f.sub target yaw)) p limit)
    ]

    drive_phase-IsBounded :
        (distance : R) (start : R × R) (t : Tick R) (seen : Seen R)
        → (drive_phase p distance start).observe t ≡ value seen
        → IsBounded p seen.motion
    unfolding drive_phase
    drive_phase-IsBounded distance start t seen e = elim (Reading-cases t.position) [
      | inl (text, no_position) ↦ absurd (ground arith)
      | inr (xy, read) ↦ ground arith
    ]

    rotate_to_heading-IsBounded :
        (delta : R) (ts : List (Tick R))
        → All (IsBounded p) (rotate_to_heading p delta ts).published
    unfolding rotate_to_heading
    rotate_to_heading-IsBounded delta [] = ground arith
    rotate_to_heading-IsBounded delta (t ∷ ts) = elim (Reading-cases t.yaw) [
      | inl (text, e) ↦ ground arith
      | inr (yaw, e) ↦ ground (
        arith,
        control_loop-All (IsBounded p) (rotate_phase p delta (f.add yaw delta))
            (f.add t.now (rotate_timeout_seconds delta p)) (inl (refl, refl))
            (rotate_phase-IsBounded delta (f.add yaw delta)) ts,
      )
    ]

    drive_distance-IsBounded :
        (distance : R) (ts : List (Tick R))
        → All (IsBounded p) (drive_distance p distance ts).published
    unfolding drive_distance
    drive_distance-IsBounded distance [] = ground arith
    drive_distance-IsBounded distance (t ∷ ts) = elim (Reading-cases t.position) [
      | inl (text, e) ↦ ground arith
      | inr (xy, e) ↦ ground (
        arith,
        control_loop-All (IsBounded p) (drive_phase p distance xy)
            (f.add t.now (drive_timeout_seconds distance p)) (inl (refl, refl))
            (drive_phase-IsBounded distance xy) ts,
      )
    ]

and_then-All :
    {R : Type 0} (P : R × R → Type 0) (r : Run R) (next : List (Tick R) → Run R)
    → All P r.published
    → ((ts : List (Tick R)) → All P (next ts).published)
    → All P (and_then r next).published
and_then-All P r next h k = helper r.outcome refl
  where
    helper : (o : Outcome) → r.outcome ≡ o → All P (and_then r next).published
    helper waiting e = rw (e, and_then) h
    helper returned e = rw (e, and_then) (All-append P r.published _ h (k r.rest))
    helper (raised x) e = rw (e, and_then) h

-- Every twist that a command publishes is the zero twist, a turn in place within the turn limit, or
-- a straight drive at the set speed, whatever the sensors and the clock answer.
pub execute_command-IsBounded :
    {R : Type 0} ⦃f : Float R⦄ (p : ControllerParams R)
    → f.le (f.neg p.max_angular) p.max_angular ≡ true
    → (heading_degree distance_m : R) (ts : List (Tick R))
    → All (IsBounded p) (execute_command p heading_degree distance_m ts).published
unfolding execute_command
execute_command-IsBounded ⦃f⦄ p limit heading_degree distance_m ts =
    and_then-All (IsBounded p) (rotate_to_heading p (f.radians heading_degree) ts)
      (drive_distance p distance_m)
      (rotate_to_heading-IsBounded p limit (f.radians heading_degree) ts)
      (drive_distance-IsBounded p limit distance_m)
