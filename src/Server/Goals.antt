-- ===== src/Server/Goals.antt =====
-- What the execution of a goal leaves behind (`_execute_callback` of safety_controller_node.py).
use rover_mind.Prelude.{
  String, ◌≡◌, ◌≢◌, ◌↔◌, refl, ◌⊎◌, inl, inr, true, false, none, some, List, [], ◌∷◌, map, arith,
  All, All-append, Option-cases, Bool-cases, get_last?, get_last?-append,
}
use rover_mind.Float.{Float, nought}
use rover_mind.Control.{ControllerParams}
use rover_mind.Control.Loops.{
  Tick, cancelled, timed_out, sensor, zero_division, Outcome, waiting, returned, raised, Run, halt,
  rotate_to_heading, execute_command,
}
use rover_mind.Control.Loops.Bounded.{IsBounded, execute_command-IsBounded}
use rover_mind.Control.Loops.Success.{Turned, Drove, execute_command_achieves}
use rover_mind.Server.{
  Node, Goal, Sample, succeeded, aborted, crashed, executing, tick_of, phases, settle,
  execute_callback,
}

module _ {R : Type 0} ⦃f : Float R⦄ (p : ControllerParams R) where
  open f use {lt, radians, le, neg}

  -- The command that a goal runs, over the ticks of its samples.
  abbrev pub command : Goal R → List (Sample R) → Run R
  command goal samples =
      execute_command p goal.heading_degree goal.distance_m
        (map (tick_of (some goal.handle)) samples)

  -- The feedback that a goal sends.
  abbrev sent : Goal R → List (Sample R) → List String
  sent goal samples = (phases p goal (map (tick_of (some goal.handle)) samples)).0

  -- The phases of the callback are the controller's `execute_command`, with feedback.
  phases-eq :
      (goal : Goal R) (ts : List (Tick R))
      → (phases p goal ts).1 ≡ execute_command p goal.heading_degree goal.distance_m ts
  unfolding phases execute_command
  phases-eq goal ts = ground arith

  -- A goal is refused, or its command is run and settled.
  execute_callback-cases :
      (n : Node R) (goal : Goal R) (samples : List (Sample R))
      → let e = execute_callback p n goal samples in
        ((e.node ≡ n) × (e.published ≡ []) × (e.status ≡ aborted) × (e.success ≡ false))
        ⊎ ((n.active_goal ≡ none)
            × (lt goal.distance_m nought ≡ false)
            × (e
                ≡ settle n goal
                    (phases p goal (map (tick_of (some goal.handle)) samples)).0
                    (command goal samples).published
                    (command goal samples).outcome))
  unfolding execute_callback
  execute_callback-cases n goal samples = elim (Bool-cases (lt goal.distance_m nought)) [
    | inl negative ↦ inl (ground arith)
    | inr fine ↦ elim (Option-cases n.active_goal) [
      | inr (other, busy) ↦ inl (ground arith)
      | inl free ↦
          inr
            (free, fine, ground (arith, phases-eq goal (map (tick_of (some goal.handle)) samples)))
    ]
  ]

  module _ (n : Node R) (goal : Goal R) (feedback : List String) (out : List (R × R)) where
    settle_halts :
        (o : Outcome)
        → let e = settle n goal feedback out o in
          e.status ≢ executing → e.status ≢ crashed → get_last? e.published ≡ some halt
    unfolding settle
    settle_halts waiting r c = absurd (r refl)
    settle_halts returned r c = get_last?-append out halt
    settle_halts (raised (cancelled m)) r c = get_last?-append out halt
    settle_halts (raised (timed_out m)) r c = get_last?-append out halt
    settle_halts (raised (sensor m)) r c = get_last?-append out halt
    settle_halts (raised zero_division) r c = absurd (c refl)

    settle-All :
        (P : R × R → Type 0) (o : Outcome)
        → P halt
        → All P out
        → All P (settle n goal feedback out o).published
    unfolding settle
    settle-All P waiting h a = a
    settle-All P returned h a = All-append P out (halt ∷ []) a (h, tt)
    settle-All P (raised (cancelled m)) h a = All-append P out (halt ∷ []) a (h, tt)
    settle-All P (raised (timed_out m)) h a = All-append P out (halt ∷ []) a (h, tt)
    settle-All P (raised (sensor m)) h a = All-append P out (halt ∷ []) a (h, tt)
    settle-All P (raised zero_division) h a = a

    settle_success :
        (o : Outcome)
        → let e = settle n goal feedback out o in
          ((e.success ≡ true) ↔ (e.status ≡ succeeded)) × (e.success ≡ true → o ≡ returned)
    unfolding settle
    settle_success waiting = ground arith
    settle_success returned = ground arith
    settle_success (raised c) = ground arith

  -- A goal that has ended, unless by an exception that the callback does not catch, was refused
  -- without a twist published, or has published the zero twist last, on failure of a sensor too.
  pub execute_callback_halts :
      (n : Node R) (goal : Goal R) (samples : List (Sample R))
      → let e = execute_callback p n goal samples in
        e.status ≢ executing
        → e.status ≢ crashed
        → ((e.published ≡ []) × (e.status ≡ aborted)) ⊎ (get_last? e.published ≡ some halt)
  execute_callback_halts n goal samples r c = elim (execute_callback-cases n goal samples) [
    | inl (same, silent, ended, failed_it) ↦ inl (silent, ended)
    | inr (free, fine, e) ↦ inr (
        rw e (
          settle_halts n goal _ (command goal samples).published (command goal samples).outcome
            (rw e at r) (rw e at c)))
  ]

  -- Every twist that a goal publishes is the zero twist, a turn in place within the turn limit, or a
  -- straight drive at the set speed.
  pub execute_callback-IsBounded :
      le (neg p.max_angular) p.max_angular ≡ true
      → (n : Node R) (goal : Goal R) (samples : List (Sample R))
      → All (IsBounded p) (execute_callback p n goal samples).published
  execute_callback-IsBounded limit n goal samples = elim (execute_callback-cases n goal samples) [
    | inl (same, silent, ended, failed_it) ↦ rw silent tt
    | inr (free, fine, e) ↦ rw e (
        settle-All n goal _ (command goal samples).published (IsBounded p)
          (command goal samples).outcome (inl (refl, refl))
          (execute_command-IsBounded p limit goal.heading_degree goal.distance_m
            (map (tick_of (some goal.handle)) samples)))
  ]

  -- Success is reported exactly with the status `succeeded`, and only where the samples show the
  -- commanded turn made and the commanded distance driven, on a node that was free.
  pub execute_callback_success :
      (n : Node R) (goal : Goal R) (samples : List (Sample R))
      → let e = execute_callback p n goal samples in
        let ts = map (tick_of (some goal.handle)) samples in
        ((e.success ≡ true) ↔ (e.status ≡ succeeded))
        × (e.success ≡ true
            → (n.active_goal ≡ none)
              × (Turned p (radians goal.heading_degree) ts)
              × Drove goal.distance_m (rotate_to_heading p (radians goal.heading_degree) ts).rest)
  execute_callback_success n goal samples = elim (execute_callback-cases n goal samples) [
    | inl (same, silent, ended, failed_it) ↦ (ground arith, λ s. cc)
    | inr (free, fine, e) ↦
        let ts : List (Tick R) = map (tick_of (some goal.handle)) samples in
        let (same, returns) =
          settle_success n goal (phases p goal ts).0 (command goal samples).published
            (command goal samples).outcome in
        (
          rw e same,
          λ s.
              let (turned, drove) =
                execute_command_achieves p goal.heading_degree goal.distance_m ts
                  (returns (rw e at s)) in
              (free, turned, drove),
        )
  ]
