-- ===== src/Control/Loops/Ending.antt =====
-- How the control loops end (control_math.py).
use rover_mind.Prelude.{
  ℕ, zero, suc, ◌+◌, ◌≤◌, ◌≡◌, ◌≢◌, ◌⊎◌, inl, inr, true, some, List, [], ◌∷◌, arith, length,
  get_elem?, get_last?, get_last?-cons, get_last?-append_right,
}
use rover_mind.Float.{Float}
use rover_mind.Control.{ControllerParams, rotate_timeout_seconds, drive_timeout_seconds}
use rover_mind.Control.Loops.{
  Reading-cases, Tick, Outcome, waiting, returned, raised, cancelled, timed_out, Run, Phase, halt,
  control_loop, rotate_to_heading, rotate_phase, drive_phase, drive_distance, and_then,
  execute_command,
}

-- The ends that a loop chooses; the others are an exception of a callable or of `1.0 / rate`.
abbrev pub IsDecided : Outcome → Type 0
IsDecided returned = Unit
IsDecided (raised (cancelled m)) = Unit
IsDecided (raised (timed_out m)) = Unit
IsDecided _ = ⊥

module _ {R : Type 0} ⦃f : Float R⦄ where
  open f use {le, add}

  -- A round sees the abort flag, or a clock at or past the deadline.
  abbrev pub IsDue : R → Tick R → Type 0
  IsDue deadline t = (t.abort ≡ true) ⊎ (le deadline t.now ≡ true)

  control_loop_ends :
      (ph : Phase R) (deadline : R) (ts : List (Tick R)) (i : ℕ) (t : Tick R)
      → get_elem? ts i ≡ some t
      → IsDue deadline t
      → ((control_loop ph deadline ts).outcome ≢ waiting)
        × (length (control_loop ph deadline ts).published ≤ i + 1)
  unfolding control_loop
  control_loop_ends ph deadline [] i t at due = cc
  control_loop_ends ph deadline (u ∷ ts) zero t at due = elim (Reading-cases (ph.observe u)) [
    | inl (text, e) ↦ ground arith
    | inr (seen, e) ↦ ground arith
  ]
  control_loop_ends ph deadline (u ∷ ts) (suc i) t at due = elim (Reading-cases (ph.observe u)) [
    | inl (text, e) ↦ ground arith
    | inr (seen, e) ↦ ground (arith, control_loop_ends ph deadline ts i t at due)
  ]

  control_loop_halts :
      (ph : Phase R) (deadline : R) (ts : List (Tick R))
      → IsDecided (control_loop ph deadline ts).outcome
      → get_last? (control_loop ph deadline ts).published ≡ some halt
  unfolding control_loop
  control_loop_halts ph deadline [] h = absurd h
  control_loop_halts ph deadline (u ∷ ts) h = elim (Reading-cases (ph.observe u)) [
    | inl (text, e) ↦ ground arith
    | inr (seen, e) ↦ ground (
      arith,
      control_loop_halts ph deadline ts,
      get_last?-cons seen.motion halt (control_loop ph deadline ts).published,
    )
  ]

  module _ (p : ControllerParams R) where
    -- The rotation ends, in whatever way, by the first tick after its start at which the abort flag
    -- is up or the clock stands at the start time plus the timeout budget: it is not waiting then,
    -- and has published at most one twist for each tick.
    pub rotate_to_heading_ends :
        (delta : R) (start : Tick R) (ts : List (Tick R)) (i : ℕ) (t : Tick R)
        → get_elem? ts i ≡ some t
        → IsDue (add start.now (rotate_timeout_seconds delta p)) t
        → ((rotate_to_heading p delta (start ∷ ts)).outcome ≢ waiting)
          × (length (rotate_to_heading p delta (start ∷ ts)).published ≤ i + 1)
    unfolding rotate_to_heading
    rotate_to_heading_ends delta start ts i t at due = elim (Reading-cases start.yaw) [
      | inl (text, e) ↦ ground arith
      | inr (yaw, e) ↦ ground (
        arith,
        control_loop_ends (rotate_phase p delta (add yaw delta))
            (add start.now (rotate_timeout_seconds delta p)) ts i t at due,
      )
    ]

    -- The drive ends in the same way, by its own timeout budget.
    pub drive_distance_ends :
        (distance : R) (start : Tick R) (ts : List (Tick R)) (i : ℕ) (t : Tick R)
        → get_elem? ts i ≡ some t
        → IsDue (add start.now (drive_timeout_seconds distance p)) t
        → ((drive_distance p distance (start ∷ ts)).outcome ≢ waiting)
          × (length (drive_distance p distance (start ∷ ts)).published ≤ i + 1)
    unfolding drive_distance
    drive_distance_ends distance start ts i t at due = elim (Reading-cases start.position) [
      | inl (text, e) ↦ ground arith
      | inr (xy, e) ↦ ground (
        arith,
        control_loop_ends (drive_phase p distance xy)
            (add start.now (drive_timeout_seconds distance p)) ts i t at due,
      )
    ]

    rotate_to_heading_halts :
        (delta : R) (ts : List (Tick R))
        → IsDecided (rotate_to_heading p delta ts).outcome
        → get_last? (rotate_to_heading p delta ts).published ≡ some halt
    unfolding rotate_to_heading
    rotate_to_heading_halts delta [] h = absurd (ground arith)
    rotate_to_heading_halts delta (t ∷ ts) h = elim (Reading-cases t.yaw) [
      | inl (text, e) ↦ absurd (ground arith)
      | inr (yaw, e) ↦ ground (
        arith,
        control_loop_halts (rotate_phase p delta (add yaw delta))
            (add t.now (rotate_timeout_seconds delta p)) ts,
      )
    ]

    drive_distance_halts :
        (distance : R) (ts : List (Tick R))
        → IsDecided (drive_distance p distance ts).outcome
        → get_last? (drive_distance p distance ts).published ≡ some halt
    unfolding drive_distance
    drive_distance_halts distance [] h = absurd (ground arith)
    drive_distance_halts distance (t ∷ ts) h = elim (Reading-cases t.position) [
      | inl (text, e) ↦ absurd (ground arith)
      | inr (xy, e) ↦ ground (
        arith,
        control_loop_halts (drive_phase p distance xy)
            (add t.now (drive_timeout_seconds distance p)) ts,
      )
    ]

    and_then_halts :
        (r : Run R) (next : List (Tick R) → Run R)
        → (IsDecided r.outcome → get_last? r.published ≡ some halt)
        → (IsDecided (next r.rest).outcome → get_last? (next r.rest).published ≡ some halt)
        → IsDecided (and_then r next).outcome
        → get_last? (and_then r next).published ≡ some halt
    and_then_halts r next h k d =
        ground (arith, get_last?-append_right r.published (next r.rest).published halt)

    -- A command that completes, is cancelled or times out has published the zero twist last.
    pub execute_command_halts :
        (heading_degree distance_m : R) (ts : List (Tick R))
        → IsDecided (execute_command p heading_degree distance_m ts).outcome
        → get_last? (execute_command p heading_degree distance_m ts).published ≡ some halt
    unfolding execute_command
    execute_command_halts heading_degree distance_m ts =
        let first : Run R = rotate_to_heading p (f.radians heading_degree) ts in
        and_then_halts first (drive_distance p distance_m)
          (rotate_to_heading_halts (f.radians heading_degree) ts)
          (drive_distance_halts distance_m first.rest)
