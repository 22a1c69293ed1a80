-- ===== src/Agent/Graph/Ending.antt =====
-- The end of a run of the graph (check_node and should_continue of agent/nodes.py).
use rover_mind.Prelude.{
  ℕ, zero, suc, ◌+◌, ◌*◌, ◌≤◌, ◌<◌, String, ◌≡◌, ◌≢◌, refl, ◌⊎◌, inl, inr, ap, true, false, List,
  arith, Bool-cases, leb, if◌then◌else◌,
}
use rover_mind.Prelude.Int.{ℤ, pos, pos_part, leb_ℤ}
use rover_mind.Prelude.Io.{Io, Result, Ensures, Ensures-bind_with}
use rover_mind.Prelude.Text.{Unicode}
use rover_mind.Float.{Float}
use rover_mind.Agent.{ActionParams}
use rover_mind.Agent.Tools.{Rig, Rover, Binding}
use rover_mind.Agent.Graph.{
  Message, Status, running, arrived, failed_max_steps, aborted, RoverState, is_running, at_reason,
  at_check, at_end, Outcome, finished, out_of_steps, init_node, check_node, should_continue, reason,
  act_node, run, graph_invoke,
}
use rover_mind.Agent.Graph.Keeping.{Progress, reason-Progress, act_node-Progress}

-- `max(1, max_steps)`, the number of rounds that a run may take.
abbrev pub round_bound : ℤ → ℕ
round_bound max_steps = if leb 1 (pos_part max_steps) then pos_part max_steps else 1

is_running_eq : (s : Status) → is_running s ≡ true → s ≡ running
is_running_eq running h = refl
is_running_eq arrived h = cc
is_running_eq failed_max_steps h = cc
is_running_eq aborted h = cc

not_running : (s : Status) → is_running s ≡ false → s ≢ running
not_running s h e = cc

running-ne : {s : Status} → s ≡ running → s ≡ failed_max_steps → ⊥
running-ne e h = cc

module _ {R Args : Type 0} (max_steps : ℤ) where
  -- The run has finished, with a status that is not `running`, after at least one round and at most
  -- the bound; where its status is that of the step limit, the limit is reached.
  abbrev pub HasEnded : Outcome (RoverState R Args) → Type 0
  HasEnded out_of_steps = ⊥
  HasEnded (finished t) =
      (t.status ≢ running)
      × (1 ≤ t.step_count)
      × (t.step_count ≤ round_bound max_steps)
      × (t.status ≡ failed_max_steps → leb_ℤ max_steps (pos t.step_count) ≡ true)

  -- A check goes on below the bound, or it ends the run.
  check_node-cases :
      (s : RoverState R Args)
      → (s.status ≡ failed_max_steps → ⊥)
      → let t = check_node max_steps s in
        (t.step_count ≡ s.step_count + 1)
        × (((t.status ≡ running) × (s.step_count + 1 < round_bound max_steps))
            ⊎ ((is_running t.status ≡ false)
                × (t.status ≢ running)
                × (t.status ≡ failed_max_steps → leb_ℤ max_steps (pos t.step_count) ≡ true)))
  unfolding check_node
  check_node-cases s h = elim (Bool-cases (is_running s.status)) [
    | inl e ↦ elim (Bool-cases (leb_ℤ max_steps (pos (s.step_count + 1)))) [
      | inl l ↦ rw (e, l) (refl, inr (refl, λ x. cc, λ x. l))
      | inr l ↦ rw (e, l) (refl, inl (is_running_eq s.status e, ground arith))
    ]
    | inr e ↦ rw e (refl, inr (e, λ x. not_running s.status e x, λ x. absurd (h x)))
  ]

module _ (u : Unicode) {R W Args : Type 0} ⦃f : Float R⦄ (rover : Rover R W)
    (params : ActionParams R) (bind : Binding Args)
    (llm : List (Message Args) → Io W (Message Args)) (max_steps : ℤ) where
  abbrev Ends : Result (Outcome (RoverState R Args)) × Rig R W → Type 0
  Ends r = Ensures (HasEnded {R = R} {Args = Args} max_steps) r

  at_end-Ends :
      (n : ℕ) (t : RoverState R Args) (rig : Rig R W)
      → HasEnded max_steps (finished t)
      → Ends (run u rover params bind llm max_steps n at_end t rig)
  unfolding run
  at_end-Ends zero t rig h = h
  at_end-Ends (suc n) t rig h = h

  edge-Ends :
      (n : ℕ) (t : RoverState R Args) (rig : Rig R W)
      → ((t.status ≡ running) × Ends (run u rover params bind llm max_steps n at_reason t rig))
        ⊎ ((is_running t.status ≡ false) × HasEnded max_steps (finished t))
      → Ends (run u rover params bind llm max_steps n (should_continue t) t rig)
  unfolding should_continue
  edge-Ends n t rig (inl (e, h)) = rw (ap is_running e) h
  edge-Ends n t rig (inr (e, h)) = rw e (at_end-Ends n t rig h)

  -- The last of the three nodes of a round, where the rounds that are left end.
  check-Ends :
      (n : ℕ) (s : RoverState R Args) (rig : Rig R W)
      → (s.status ≡ failed_max_steps → ⊥)
      → s.step_count < round_bound max_steps
      → ((t : RoverState R Args)
          → t.status ≡ running
          → t.step_count ≡ s.step_count + 1
          → t.step_count < round_bound max_steps
          → Ends (run u rover params bind llm max_steps n at_reason t rig))
      → Ends (run u rover params bind llm max_steps (suc n) at_check s rig)
  unfolding run
  check-Ends n s rig hs hb ih =
      let t : RoverState R Args = check_node max_steps s in
      let (count, c) = check_node-cases max_steps s hs in
      edge-Ends n t rig (elim c [
        | inl (going, below) ↦ inl (going, ih t going count (omega arith))
        | inr (over, stopped, limit) ↦ inr (over, (stopped, omega arith, omega arith, limit))
      ])

  reason-Ends :
      (k n : ℕ) (s : RoverState R Args) (rig : Rig R W)
      → s.status ≡ running
      → s.step_count + k ≡ round_bound max_steps
      → s.step_count < round_bound max_steps
      → 3 * k ≤ n
      → Ends (run u rover params bind llm max_steps n at_reason s rig)
  unfolding run
  reason-Ends zero n s rig e c b h = absurd (omega arith)
  reason-Ends (suc k) zero s rig e c b h = absurd (omega arith)
  reason-Ends (suc k) (suc zero) s rig e c b h = absurd (omega arith)
  reason-Ends (suc k) (suc (suc zero)) s rig e c b h = absurd (omega arith)
  reason-Ends (suc k) (suc (suc (suc n))) s rig e c b h =
      Ensures-bind_with (Progress s) (HasEnded max_steps) (reason llm s) _ rig
        (reason-Progress llm s rig)
        (λ s1 r1 (c1, t1, g1, l1, a1, m1).
          Ensures-bind_with (Progress s1) (HasEnded max_steps) (act_node u rover params bind s1) _
            r1 (act_node-Progress u rover params bind s1 r1)
            (λ s2 r2 (c2, t2, g2, l2, a2, m2).
              check-Ends n s2 r2 (λ x. running-ne e (l1 (l2 x))) (omega arith)
                (λ t e' c' b'. reason-Ends k n t r2 e' (omega arith) b' (omega arith))))

  -- Given a budget of node executions of one and three for each round of the bound, a run that raises
  -- nothing finishes within the bound, after at least one round, with a status that is not `running`,
  -- and with the status of the step limit only once the limit is reached.
  pub graph_invoke-HasEnded :
      (extract_target : String → String) (budget : ℕ) (task : String) (rig : Rig R W)
      → 1 + 3 * round_bound max_steps ≤ budget
      → Ensures
          (HasEnded {R = R} {Args = Args} max_steps)
          (graph_invoke u rover params bind llm max_steps extract_target budget task rig)
  unfolding graph_invoke init_node
  graph_invoke-HasEnded extract_target zero task rig h = absurd (omega arith)
  graph_invoke-HasEnded extract_target (suc budget) task rig h =
      reason-Ends (round_bound max_steps) budget (init_node extract_target task) rig refl
        (ground arith) (ground arith) (omega arith)
