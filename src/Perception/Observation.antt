-- ===== src/Perception/Observation.antt =====
-- How the fields of a built observation belong together (build_observation of
-- perception/scene_parsing.py).
use text.Mathlib.TextEquality.{eq_iff}
use rover_mind.Prelude.{
  String, ◌≡◌, ◌↔◌, true, false, Option, none, some, arith, Bool-cases, inl, inr,
}
use rover_mind.Prelude.Text.{Unicode}
use rover_mind.Perception.{parse_yes_no, is_close, pick_distance, build_observation}

is_close_iff : (d : Option String) → (is_close d ≡ true) ↔ (d ≡ some "close")
is_close_iff none = ground arith
is_close_iff (some d) = ground (arith, eq_iff d "close")

-- An observation says found exactly where the visible answer counts as a yes. One that is not found
-- has no direction, no distance and no stop; one that is found asks for a stop exactly where its
-- distance is close.
pub build_observation_lem :
    {R : Type 0} (u : Unicode) (target visible direction distance : String)
    (distance_override : Option String) (distance_m : Option R) (source : String)
    → let o =
        build_observation u target visible direction distance distance_override distance_m source in
      (o.found ≡ parse_yes_no u visible)
      × (o.found ≡ false
          → (o.direction ≡ none)
            × (o.distance ≡ none)
            × (o.should_stop ≡ false)
            × (o.distance_m ≡ none))
      × ((o.should_stop ≡ true) ↔ ((o.found ≡ true) × (o.distance ≡ some "close")))
unfolding build_observation
build_observation_lem u target visible direction distance over m source =
    elim (Bool-cases (parse_yes_no u visible)) [
      | inl seen ↦
          (ground arith, ground arith, ground (arith, is_close_iff (pick_distance u over distance)))
      | inr unseen ↦ (ground arith, ground arith, ground arith)
    ]
