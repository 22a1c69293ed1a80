-- ===== src/Agent/Latency/Report.antt =====
-- The text of a latency summary (Summary.render of agent/latency.py).
use Prim.Native.Nat.{Ordering}
use Prim.Native.String.{compare}
use rover_mind.Prelude.{
  ℕ, zero, suc, ◌-◌, String, Option, none, some, List, [], ◌∷◌, ◌++◌, map, concat, length,
}
use rover_mind.Prelude.Int.{pos}
use rover_mind.Prelude.Show.{show}
use rover_mind.Prelude.Text.{codes}
use rover_mind.Float.{Float}
use rover_mind.Agent.Latency.Summary.{Aggregate, Row, Step, Summary}

spaces : ℕ → String
spaces zero = ""
spaces (suc n) = concat (" " ∷ spaces n ∷ [])

-- `f"{text:<width}"` and `f"{text:>width}"`
left_aligned : ℕ → String → String
unfolding spaces
left_aligned width text = concat (text ∷ spaces (width - length (codes text)) ∷ [])

right_aligned : ℕ → String → String
unfolding spaces
right_aligned width text = concat (spaces (width - length (codes text)) ∷ text ∷ [])

-- `"\n".join(lines)`
joined : List String → String
joined [] = ""
joined (line ∷ []) = line
joined (line ∷ next ∷ lines) = concat (line ∷ "\n" ∷ joined (next ∷ lines) ∷ [])

-- `sorted(d.items())`, where no two names are equal.
insert_item : {A : Type 0} → String × A → List (String × A) → List (String × A)
insert_item (name, a) [] = (name, a) ∷ []
insert_item (name, a) ((k, b) ∷ items) =
    let later = insert_item (name, a) items in
    elim (compare name k) [ Ordering.lt ↦ (name, a) ∷ (k, b) ∷ items | _ ↦ (k, b) ∷ later ]

sorted_items : {A : Type 0} → List (String × A) → List (String × A)
unfolding insert_item
sorted_items [] = []
sorted_items (item ∷ items) = insert_item item (sorted_items items)

module _ {R : Type 0} ⦃f : Float R⦄ where
  -- `f"{x:.1f}"` and `f"{x:>width.1f}"`
  tenths : R → String
  tenths x = f.fixed 1 x

  column : ℕ → R → String
  unfolding right_aligned tenths
  column width x = right_aligned width (tenths x)

  heading_lines : Summary R → List String
  unfolding tenths left_aligned right_aligned
  heading_lines s =
      "=== Latency report ==="
      ∷ concat (
          "total: "
          ∷ tenths s.total_ms
          ∷ " ms   scaffolding: "
          ∷ tenths s.scaffolding_ms
          ∷ " ms   steps: "
          ∷ show (pos (length s.steps))
          ∷ [])
      ∷ ""
      ∷ "per-category (ms):"
      ∷ concat (
          "  "
          ∷ left_aligned 12 "category"
          ∷ right_aligned 6 "count"
          ∷ right_aligned 10 "mean"
          ∷ right_aligned 10 "min"
          ∷ right_aligned 10 "max"
          ∷ right_aligned 10 "p50"
          ∷ right_aligned 12 "total"
          ∷ [])
      ∷ []

  category_line : String × Aggregate R → String
  unfolding left_aligned right_aligned column
  category_line (name, agg) = concat (
      "  "
      ∷ left_aligned 12 name
      ∷ right_aligned 6 (show (pos agg.count))
      ∷ column 10 agg.mean_ms
      ∷ column 10 agg.min_ms
      ∷ column 10 agg.max_ms
      ∷ column 10 agg.p50_ms
      ∷ column 12 agg.total_ms
      ∷ [])

  steady_lines : Option (Aggregate R) → List String
  unfolding tenths
  steady_lines none = []
  steady_lines (some ss) =
      concat (
        "VLM steady-state: n="
        ∷ show (pos ss.count)
        ∷ " mean="
        ∷ tenths ss.mean_ms
        ∷ " ms min="
        ∷ tenths ss.min_ms
        ∷ " max="
        ∷ tenths ss.max_ms
        ∷ [])
      ∷ []

  load_lines : Option R → Option (Aggregate R) → List String
  unfolding steady_lines tenths
  load_lines none steady = []
  load_lines (some ms) steady =
      "" ∷ concat ("VLM model-load (first look): " ∷ tenths ms ∷ " ms" ∷ []) ∷ steady_lines steady

  rover_line : String × Aggregate R → String
  unfolding left_aligned right_aligned column
  rover_line (name, agg) = concat (
      "  "
      ∷ left_aligned 22 name
      ∷ right_aligned 6 (show (pos agg.count))
      ∷ column 10 agg.mean_ms
      ∷ column 10 agg.max_ms
      ∷ [])

  rover_lines : List (String × Aggregate R) → List String
  unfolding sorted_items rover_line
  rover_lines [] = []
  rover_lines (item ∷ items) =
      "" ∷ "rover decomposition (ms):" ∷ map rover_line (sorted_items (item ∷ items))

  bridge_text : Option (Row R) → String
  unfolding tenths
  bridge_text none = "-"
  bridge_text (some row) = concat (row.category ∷ " " ∷ tenths row.duration_ms ∷ [])

  step_line : Step R → String
  unfolding right_aligned column bridge_text
  step_line s = concat (
      "  step "
      ∷ right_aligned 2 (show (pos s.index))
      ∷ ": total="
      ∷ column 8 s.duration_ms
      ∷ "  reason="
      ∷ column 8 s.reason_ms
      ∷ "  bridge="
      ∷ bridge_text s.bridge
      ∷ [])

  unfoldable pub render : Summary R → String
  unfolding joined heading_lines category_line sorted_items load_lines rover_lines step_line
  render s = joined (
      heading_lines s
      ++ (map category_line (sorted_items s.categories)
          ++ (load_lines s.vlm_model_load_ms s.vlm_steady_state
              ++ (rover_lines s.rover ++ ("" ∷ "per-step (ms):" ∷ map step_line s.steps)))))
