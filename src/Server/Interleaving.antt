-- ===== src/Server/Interleaving.antt =====
-- The execute callbacks of several goals at once (_execute_callback of
-- safety_controller_layer/safety_controller_node.py), which the reentrant callback group runs on several
-- threads: the test of the active goal, its assignment and the `finally` are steps of their own.
pub mod Exclusion
mod Tests
use rover_mind.Prelude.{
  String, Bool, true, false, Option, none, some, List, [], ◌∷◌, if◌then◌else◌, str_eq,
}

-- Where the callback of a goal stands: before its first test, between the test of the active goal and
-- its assignment, inside the control loops, or after its return.
pub data Stage : Type 0 where
  called tested driving over : Stage

pub record Threads : Type 0 where
  pub active_goal : Option String
  pub stage : String → Stage

-- The callbacks with the one of the goal at a stage.
abbrev pub moved : String → Stage → (String → Stage) → String → Stage
moved goal x stage other = if str_eq goal other then x else stage other

-- The two tests at the start of the callback, where `negative` tells a goal with a negative distance.
pub first_tests : Bool → Option String → Stage
first_tests true active = over
first_tests false (some other) = over
first_tests false none = tested

-- The next step of the callback of the goal.
pub advance_from : (String → Bool) → String → Stage → Threads → Threads
unfolding first_tests
advance_from negative goal called s = record s {
  stage = moved goal (first_tests (negative goal) s.active_goal) s.stage;
}
advance_from negative goal tested s = record {
  active_goal = some goal;
  stage = moved goal driving s.stage;
}
advance_from negative goal driving s = record {
  active_goal = none;
  stage = moved goal over s.stage;
}
advance_from negative goal over s = s

unfoldable pub advance : (String → Bool) → String → Threads → Threads
unfolding advance_from
advance negative goal s = advance_from negative goal (s.stage goal) s

-- The steps in the order in which the threads take them.
unfoldable pub interleave : (String → Bool) → List String → Threads → Threads
unfolding advance
interleave negative [] s = s
interleave negative (goal ∷ rest) s = interleave negative rest (advance negative goal s)

-- Before any goal has come.
abbrev pub idle : Threads
idle = record { active_goal = none; stage = λ goal. called }

-- `_is_cancel_requested`, which the control loop of any goal polls: whether a goal whose cancel request
-- is pending is the active one.
unfoldable pub sees_cancel : (String → Bool) → Threads → Bool
sees_cancel is_cancel_requested s = elim s.active_goal [
  | none ↦ false
  | some goal ↦ is_cancel_requested goal
]
