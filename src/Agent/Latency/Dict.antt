-- ===== src/Agent/Latency/Dict.antt =====
-- The dict of a latency summary (Summary.to_dict of agent/latency.py), which is written as JSON.
use rover_mind.Prelude.{String, Option, none, some, List, [], ◌∷◌, map}
use rover_mind.Prelude.Int.{pos}
use rover_mind.Agent.Latency.{Metric}
use rover_mind.Agent.Latency.Summary.{Aggregate, Row, Step, Summary}
use rover_mind.Bridge.Values.{
  Value, null, int, float, text, array, object, Items, no_items, item, Members, no_members, member,
}

module _ {R : Type 0} where
  -- A list of values.
  items_of : List (Value R) → Items R
  items_of [] = no_items
  items_of (v ∷ vs) = item v (items_of vs)

  number_or_null : Option R → Value R
  number_or_null none = null
  number_or_null (some x) = float x

  -- What `_aggregate` gives.
  aggregate_value : Aggregate R → Value R
  aggregate_value a = object (
      member "count" (int (pos a.count)) (
        member "total_ms" (float a.total_ms) (
          member "mean_ms" (float a.mean_ms) (
            member "min_ms" (float a.min_ms)
              (member "max_ms" (float a.max_ms) (member "p50_ms" (float a.p50_ms) no_members))))))

  aggregate_or_null : Option (Aggregate R) → Value R
  unfolding aggregate_value
  aggregate_or_null none = null
  aggregate_or_null (some a) = aggregate_value a

  aggregates_members : List (String × Aggregate R) → Members R
  unfolding aggregate_value
  aggregates_members [] = no_members
  aggregates_members ((name, a) ∷ rest) = member name (aggregate_value a) (aggregates_members rest)

  row_value : Row R → Value R
  row_value r = object (
      member "category" (text r.category)
        (member "label" (text r.label) (member "duration_ms" (float r.duration_ms) no_members)))

  row_or_null : Option (Row R) → Value R
  unfolding row_value
  row_or_null none = null
  row_or_null (some r) = row_value r

  step_value : Step R → Value R
  unfolding row_or_null
  step_value s = object (
      member "index" (int (pos s.index)) (
        member "duration_ms" (float s.duration_ms) (
          member "reason_ms" (float s.reason_ms)
            (member "bridge" (row_or_null s.bridge) no_members))))

  metric_value : Metric R → Value R
  metric_value m = object (
      member "method" (text m.method)
        (member "name" (text m.name) (member "ms" (float m.ms) no_members)))

  unfoldable pub to_dict : Summary R → Members R
  unfolding items_of number_or_null aggregate_or_null aggregates_members step_value row_value
      metric_value
  to_dict s = member "total_ms" (float s.total_ms) (
      member "scaffolding_ms" (float s.scaffolding_ms) (
        member "categories" (object (aggregates_members s.categories)) (
          member "steps" (array (items_of (map step_value s.steps))) (
            member "vlm_model_load_ms" (number_or_null s.vlm_model_load_ms) (
              member "vlm_steady_state" (aggregate_or_null s.vlm_steady_state) (
                member "rover" (object (aggregates_members s.rover)) (
                  member "events" (array (items_of (map row_value s.events))) (
                    member "metrics" (array (items_of (map metric_value s.metrics)))
                      no_members))))))))
