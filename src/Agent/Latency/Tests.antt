-- ===== src/Agent/Latency/Tests.antt =====
-- A report on two looks and a drive.
use rover_mind.Prelude.{ℕ, ◌*◌, String, ◌≡◌, refl, none, some, [], ◌∷◌, map, concat}
use rover_mind.Prelude.Int.{pos}
use rover_mind.Prelude.Io.{err, exception}
use rover_mind.Float.{nought}
use rover_mind.Float.Fixed.{Fixed, num, fixed_float}
use rover_mind.Agent.Latency.{Event, Collector, timed}
use rover_mind.Agent.Latency.Summary.{Statistics, Step, durations_of, summarize}
use rover_mind.Agent.Latency.Report.{render}
use rover_mind.Agent.Latency.Dict.{to_dict}
use rover_mind.Bridge.Values.{
  null, int, float, array, object, no_items, item, no_members, member, get,
}
use rover_mind.Agent.Latency.Grouping.{entry, expected, summarize-categories}

-- Statistics that are good enough for one duration.
abbrev first_only : Statistics Fixed
first_only = record {
  round_ms = λ x. x;
  sum = λ xs. elim xs [ [] ↦ nought | x ∷ rest ↦ x ];
  mean = λ x xs. x;
  median = λ x xs. x;
}

abbrev seconds : ℕ → Fixed
seconds n = num (pos (n * 1_000_000_000))

abbrev span_at : String → ℕ → ℕ → Event Fixed
span_at category from to = record {
  category = category;
  label = "";
  start = seconds from;
  end = seconds to;
}

-- A run of two steps.
abbrev collector : Collector Fixed
collector = record {
  ticks = 8;
  events =
      span_at "reason" 1 2 ∷ span_at "look" 2 6 ∷ span_at "reason" 6 7 ∷ span_at "look" 7 9 ∷ [];
  metrics = [];
}

two_steps :
    map (λ (s : Step Fixed). s.duration_ms) (summarize first_only collector).steps
    ≡ seconds 5000 ∷ seconds 3000 ∷ []
unfolding summarize fixed_float
two_steps = refl

loads : (summarize first_only collector).vlm_model_load_ms ≡ some (seconds 4000)
unfolding summarize fixed_float
loads = refl

-- A call that raises is recorded too.
abbrev empty : Collector Fixed
empty = record { ticks = 0; events = []; metrics = [] }

records_failures :
    (timed {W = ℕ} seconds {A = ℕ}
      (λ (args : ℕ) w. (err (exception "RuntimeError" ""), w))
      "move"
      none
      0
      (empty, 0)).1.0.events
    ≡ span_at "move" 0 1 ∷ []
unfolding timed
records_failures = refl

-- The sample floats write # for their digits.
abbrev headings : String
headings = concat (
    "=== Latency report ===\n" ∷ "total: # ms   scaffolding: # ms   steps: 0\n\n"
    ∷ "per-category (ms):\n"
    ∷ "  category     count      mean       min       max       p50       total\n\n"
    ∷ "per-step (ms):" ∷ [])

renders : render (summarize first_only empty) ≡ headings
unfolding render summarize fixed_float
renders = refl

-- The entries of a run of one step without a bridge call.
lists_steps :
    get "steps"
      (to_dict (summarize first_only (record empty { events = span_at "reason" 1 2 ∷ [] })))
    ≡ some (
        array (
          item
            (object (
              member "index" (int (pos 0)) (
                member "duration_ms"
                  (float (seconds 1000))
                  (member "reason_ms" (float (seconds 1000)) (member "bridge" null no_members)))))
            no_items))
unfolding get to_dict summarize fixed_float
lists_steps = refl

summarize-categories_example :
    entry "look" (summarize first_only collector).categories
    ≡ expected first_only (durations_of "look" collector.events)
summarize-categories_example = summarize-categories first_only collector "look"
