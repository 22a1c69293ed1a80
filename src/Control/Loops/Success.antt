-- ===== src/Control/Loops/Success.antt =====
-- What the sensors have shown by the end of a command that returns (control_math.py).
use rover_mind.Prelude.{
  ℕ, suc, ◌≡◌, ◌≢◌, refl, ◌⊎◌, inl, inr, true, String, some, List, [], ◌∷◌, arith, get_elem?,
}
use rover_mind.Float.{Float}
use rover_mind.Control.{
  ControllerParams, wrap_angle, displacement, rotate_timeout_seconds, drive_timeout_seconds,
}
use rover_mind.Control.Loops.{
  value, failed, Reading-cases, Tick, returned, Run, Seen, Phase, control_loop, rotate_to_heading,
  rotate_phase, drive_phase, drive_distance, and_then, execute_command,
}

and_then_returned :
    {R : Type 0} (r : Run R) (next : List (Tick R) → Run R)
    → (and_then r next).outcome ≡ returned
    → (r.outcome ≡ returned) × ((next r.rest).outcome ≡ returned)
and_then_returned r next h = ground arith

module _ {R : Type 0} ⦃f : Float R⦄ where
  open f use {lt, le, add, sub, abs}

  -- Some tick of the script shows the goal reached.
  abbrev Reached : Phase R → List (Tick R) → Type 0
  Reached ph ts =
      (i : ℕ) × (t : Tick R) × (seen : Seen R) × (get_elem? ts i ≡ some t)
      × (ph.observe t ≡ value seen)
      × (seen.reached ≡ true)

  Reached-cons :
      (ph : Phase R) (u : Tick R) (ts : List (Tick R)) → Reached ph ts → Reached ph (u ∷ ts)
  Reached-cons ph u ts (i, t, seen, at, e, r) = (suc i, t, seen, at, e, r)

  -- A loop that returns has seen its goal at this tick, or returns from the later ones.
  control_loop-cases :
      (ph : Phase R) (deadline : R) (u : Tick R) (ts : List (Tick R)) (seen : Seen R)
      → ph.observe u ≡ value seen
      → (control_loop ph deadline (u ∷ ts)).outcome ≡ returned
      → (seen.reached ≡ true) ⊎ ((control_loop ph deadline ts).outcome ≡ returned)
  unfolding control_loop
  control_loop-cases ph deadline u ts seen e h = ground arith

  control_loop_failed :
      (ph : Phase R) (deadline : R) (u : Tick R) (ts : List (Tick R)) (text : String)
      → ph.observe u ≡ failed text
      → (control_loop ph deadline (u ∷ ts)).outcome ≢ returned
  unfolding control_loop
  control_loop_failed ph deadline u ts text e h = ground arith

  control_loop-Reached :
      (ph : Phase R) (deadline : R) (ts : List (Tick R))
      → (control_loop ph deadline ts).outcome ≡ returned
      → Reached ph ts
  control_loop-Reached ph deadline [] h = absurd (unfold control_loop in ground arith)
  control_loop-Reached ph deadline (u ∷ ts) h = elim (Reading-cases (ph.observe u)) [
    | inl (text, e) ↦ absurd (control_loop_failed ph deadline u ts text e h)
    | inr (seen, e) ↦ elim (control_loop-cases ph deadline u ts seen e h) [
      | inl r ↦ (0, u, seen, refl, e, r)
      | inr later ↦ Reached-cons ph u ts (control_loop-Reached ph deadline ts later)
    ]
  ]

  -- The script has a heading of the start and a later one that is within the tolerance of the goal.
  abbrev pub Turned : ControllerParams R → R → List (Tick R) → Type 0
  Turned p delta ts =
      (i : ℕ) × (start : Tick R) × (last : Tick R) × (from : R) × (to : R) × (get_elem? ts 0
        ≡ some start)
      × (start.yaw ≡ value from)
      × (get_elem? ts (suc i) ≡ some last)
      × (last.yaw ≡ value to)
      × (lt (abs (wrap_angle (sub (add from delta) to))) p.heading_tolerance_rad ≡ true)

  -- The script has a position of the start and a later one at the distance or beyond.
  abbrev pub Drove : R → List (Tick R) → Type 0
  Drove distance ts =
      (i : ℕ) × (start : Tick R) × (last : Tick R) × (from : R × R) × (to : R × R) × (get_elem? ts 0
        ≡ some start)
      × (start.position ≡ value from)
      × (get_elem? ts (suc i) ≡ some last)
      × (last.position ≡ value to)
      × (le distance (displacement from to) ≡ true)

  module _ (p : ControllerParams R) where
    rotate_phase-Turned :
        (delta from : R) (start : Tick R) (ts : List (Tick R))
        → start.yaw ≡ value from
        → Reached (rotate_phase p delta (add from delta)) ts
        → Turned p delta (start ∷ ts)
    unfolding rotate_phase
    rotate_phase-Turned delta from start ts y (i, last, seen, at, e, r) =
        elim (Reading-cases last.yaw) [
          | inl (text, none_read) ↦ absurd (ground arith)
          | inr (to, read) ↦ (i, start, last, from, to, refl, y, at, read, ground arith)
        ]

    drive_phase-Drove :
        (distance : R) (from : R × R) (start : Tick R) (ts : List (Tick R))
        → start.position ≡ value from
        → Reached (drive_phase p distance from) ts
        → Drove distance (start ∷ ts)
    unfolding drive_phase
    drive_phase-Drove distance from start ts y (i, last, seen, at, e, r) =
        elim (Reading-cases last.position) [
          | inl (text, none_read) ↦ absurd (ground arith)
          | inr (to, read) ↦ (i, start, last, from, to, refl, y, at, read, ground arith)
        ]

    rotate_to_heading-Turned :
        (delta : R) (ts : List (Tick R))
        → (rotate_to_heading p delta ts).outcome ≡ returned
        → Turned p delta ts
    unfolding rotate_to_heading
    rotate_to_heading-Turned delta [] h = absurd (ground arith)
    rotate_to_heading-Turned delta (start ∷ ts) h = elim (Reading-cases start.yaw) [
      | inl (text, e) ↦ absurd (ground arith)
      | inr (from, e) ↦ rotate_phase-Turned delta from start ts e (
          control_loop-Reached (rotate_phase p delta (add from delta))
            (add start.now (rotate_timeout_seconds delta p)) ts (ground arith))
    ]

    drive_distance-Drove :
        (distance : R) (ts : List (Tick R))
        → (drive_distance p distance ts).outcome ≡ returned
        → Drove distance ts
    unfolding drive_distance
    drive_distance-Drove distance [] h = absurd (ground arith)
    drive_distance-Drove distance (start ∷ ts) h = elim (Reading-cases start.position) [
      | inl (text, e) ↦ absurd (ground arith)
      | inr (from, e) ↦ drive_phase-Drove distance from start ts e (
          control_loop-Reached (drive_phase p distance from)
            (add start.now (drive_timeout_seconds distance p)) ts (ground arith))
    ]

    -- A command that returns has turned and then driven: between its first reading of the heading
    -- and a later one lies the commanded turn, within the heading tolerance, and in the ticks that
    -- the rotation leaves, a position lies at the commanded distance or more from the first.
    pub execute_command_achieves :
        (heading_degree distance_m : R) (ts : List (Tick R))
        → (execute_command p heading_degree distance_m ts).outcome ≡ returned
        → Turned p (f.radians heading_degree) ts
          × Drove distance_m (rotate_to_heading p (f.radians heading_degree) ts).rest
    unfolding execute_command
    execute_command_achieves heading_degree distance_m ts h =
        let first : Run R = rotate_to_heading p (f.radians heading_degree) ts in
        let (turned, drove) = and_then_returned first (drive_distance p distance_m) h in
        (
          rotate_to_heading-Turned (f.radians heading_degree) ts turned,
          drive_distance-Drove distance_m first.rest drove,
        )
