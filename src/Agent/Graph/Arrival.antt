-- ===== src/Agent/Graph/Arrival.antt =====
-- How a run of the graph arrives (act_node of agent/nodes.py).
use rover_mind.Prelude.{ℕ, zero, suc, ◌+◌, String, ◌≡◌, refl, ◌∙◌, inl, inr, List, Any, Bool-cases}
use rover_mind.Prelude.Int.{ℤ, pos, leb_ℤ}
use rover_mind.Prelude.Io.{Io, Ensures, Ensures-bind_with}
use rover_mind.Prelude.Text.{Unicode}
use rover_mind.Float.{Float}
use rover_mind.Agent.{ActionParams}
use rover_mind.Agent.Tools.{Rig, Rover, Binding}
use rover_mind.Agent.Graph.{
  Message, arrived, RoverState, is_running, Place, at_reason, at_act, at_check, at_end, Outcome,
  finished, out_of_steps, init_node, check_node, should_continue, reason, act_node, run,
  graph_invoke,
}
use rover_mind.Agent.Graph.Keeping.{Progress, CallsStop, reason-Progress, act_node-Progress}

module _ {R Args : Type 0} (task target : String) where
  -- The state is of the task and the target, and where it has arrived, one of its messages is an
  -- answer of the model whose first tool call is of `stop`.
  abbrev pub IsHonest : RoverState R Args → Type 0
  IsHonest s =
      (s.task ≡ task) × (s.target ≡ target) × (s.status ≡ arrived → Any CallsStop s.messages)

  abbrev pub HonestOutcome : Outcome (RoverState R Args) → Type 0
  HonestOutcome (finished t) = IsHonest t
  HonestOutcome out_of_steps = Unit

  Progress-IsHonest : (s t : RoverState R Args) → Progress s t → IsHonest s → IsHonest t
  Progress-IsHonest s t (count, ta, tg, failed, arrives, stays) (hta, htg, ha) =
      (ta ∙ hta, tg ∙ htg, λ e. elim (arrives e) [ inl h ↦ stays (ha h) | inr h ↦ h ])

  check_node-IsHonest :
      (max_steps : ℤ) (s : RoverState R Args) → IsHonest s → IsHonest (check_node max_steps s)
  unfolding check_node
  check_node-IsHonest max_steps s h = elim (Bool-cases (is_running s.status)) [
    | inl e ↦ elim (Bool-cases (leb_ℤ max_steps (pos (s.step_count + 1)))) [
      | inl l ↦ rw (e, l) (h.0, h.1, λ x. cc)
      | inr l ↦ rw (e, l) h
    ]
    | inr e ↦ rw e h
  ]

module _ (u : Unicode) {R W Args : Type 0} ⦃f : Float R⦄ (rover : Rover R W)
    (params : ActionParams R) (bind : Binding Args)
    (llm : List (Message Args) → Io W (Message Args)) (max_steps : ℤ) where
  run-IsHonest :
      (task target : String) (n : ℕ) (place : Place) (s : RoverState R Args) (rig : Rig R W)
      → IsHonest task target s
      → Ensures (HonestOutcome task target) (run u rover params bind llm max_steps n place s rig)
  unfolding run
  run-IsHonest task target zero at_end s rig h = h
  run-IsHonest task target (suc n) at_end s rig h = h
  run-IsHonest task target zero at_reason s rig h = tt
  run-IsHonest task target zero at_act s rig h = tt
  run-IsHonest task target zero at_check s rig h = tt
  run-IsHonest task target (suc n) at_reason s rig h =
      Ensures-bind_with (Progress s) (HonestOutcome task target) (reason llm s)
        (run u rover params bind llm max_steps n at_act) rig (reason-Progress llm s rig)
        (λ t v p. run-IsHonest task target n at_act t v (Progress-IsHonest task target s t p h))
  run-IsHonest task target (suc n) at_act s rig h =
      Ensures-bind_with (Progress s) (HonestOutcome task target) (act_node u rover params bind s)
        (run u rover params bind llm max_steps n at_check) rig
        (act_node-Progress u rover params bind s rig)
        (λ t v p. run-IsHonest task target n at_check t v (Progress-IsHonest task target s t p h))
  run-IsHonest task target (suc n) at_check s rig h =
      run-IsHonest task target n (should_continue (check_node max_steps s)) (check_node max_steps s)
        rig (check_node-IsHonest task target max_steps s h)

  -- With any budget: a run that finishes keeps its task and the target that was extracted from it,
  -- and it has arrived only if one of its messages is an answer of the model whose first tool call is
  -- of `stop`.
  pub graph_invoke-IsHonest :
      (extract_target : String → String) (budget : ℕ) (task : String) (rig : Rig R W)
      → Ensures
          (HonestOutcome {R = R} {Args = Args} task (extract_target task))
          (graph_invoke u rover params bind llm max_steps extract_target budget task rig)
  unfolding graph_invoke init_node
  graph_invoke-IsHonest extract_target zero task rig = tt
  graph_invoke-IsHonest extract_target (suc budget) task rig =
      run-IsHonest task (extract_target task) budget at_reason (init_node extract_target task) rig
        (refl, refl, λ x. cc)
