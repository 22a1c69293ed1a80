-- ===== src/Agent/Latency/Summary.antt =====
-- The summary of a latency collector (summarize of agent/latency.py). What the statistics and the
-- built-in functions of Python compute is a parameter.
use rover_mind.Prelude.{
  ℕ, suc, String, not, ◌&&◌, Option, none, some, List, [], ◌∷◌, ◌++◌, map, if◌then◌else◌, str_eq,
  length,
}
use rover_mind.Float.{Float, nought}
use rover_mind.Agent.Latency.{Event, Metric, Collector}

-- `round(x, 3)`, `sum`, `mean` and `median`, of durations of which there is one at least.
pub record Statistics (R : Type 0) : Type 0 where
  pub round_ms : R → R
  pub sum : List R → R
  pub mean : R → List R → R
  pub median : R → List R → R

pub record Aggregate (R : Type 0) : Type 0 where
  pub count : ℕ
  pub total_ms : R
  pub mean_ms : R
  pub min_ms : R
  pub max_ms : R
  pub p50_ms : R

-- An event as the summary shows it, and the bridge span of a step.
pub record Row (R : Type 0) : Type 0 where
  pub category : String
  pub label : String
  pub duration_ms : R

pub record Step (R : Type 0) : Type 0 where
  pub index : ℕ
  pub duration_ms : R
  pub reason_ms : R
  pub bridge : Option (Row R)

pub record Summary (R : Type 0) : Type 0 where
  pub categories : List (String × Aggregate R)
  pub steps : List (Step R)
  pub total_ms : R
  pub scaffolding_ms : R
  pub vlm_model_load_ms : Option R
  pub vlm_steady_state : Option (Aggregate R)
  pub rover : List (String × Aggregate R)
  pub events : List (Row R)
  pub metrics : List (Metric R)

-- `by_cat.setdefault(name, []).append(d)`, on a dict whose lists are not empty.
unfoldable pub append_to :
    {R : Type 0} → String → R → List (String × (R × List R)) → List (String × (R × List R))
append_to name d [] = (name, (d, [])) ∷ []
append_to name d ((k, (first, more)) ∷ groups) =
    let later = append_to name d groups in
    if str_eq k name then (k, (first, more ++ d ∷ [])) ∷ groups else (k, (first, more)) ∷ later

module _ {R : Type 0} ⦃f : Float R⦄ where
  open f use {lt, le, sub, mul, lit}

  -- `(end - start) * 1000.0`
  unfoldable pub span_ms : R → R → R
  span_ms start end = mul (sub end start) (lit 10000 1)

  -- `Event.duration_ms`
  unfoldable pub duration_ms : Event R → R
  unfolding span_ms
  duration_ms e = span_ms e.start e.end

  -- `min` and `max`, of one number and more.
  least : R → List R → R
  least x [] = x
  least x (y ∷ ys) = least (if lt y x then y else x) ys

  greatest : R → List R → R
  greatest x [] = x
  greatest x (y ∷ ys) = greatest (if lt x y then y else x) ys

  -- The durations by category, and by the name of a metric.
  unfoldable pub by_category :
      List (String × (R × List R)) → List (Event R) → List (String × (R × List R))
  unfolding append_to duration_ms
  by_category groups [] = groups
  by_category groups (e ∷ events) = by_category (append_to e.category (duration_ms e) groups) events

  unfoldable pub by_name :
      List (String × (R × List R)) → List (Metric R) → List (String × (R × List R))
  unfolding append_to
  by_name groups [] = groups
  by_name groups (m ∷ metrics) = by_name (append_to m.name m.ms groups) metrics

  -- `sorted(..., key=lambda e: e.start)`, where no reading is NaN.
  insert_event : Event R → List (Event R) → List (Event R)
  insert_event e [] = e ∷ []
  insert_event e (x ∷ xs) =
      let later = insert_event e xs in if lt e.start x.start then e ∷ x ∷ xs else x ∷ later

  sorted_reasons : List (Event R) → List (Event R) → List (Event R)
  unfolding insert_event
  sorted_reasons done [] = done
  sorted_reasons done (e ∷ events) =
      sorted_reasons (if str_eq e.category "reason" then insert_event e done else done) events

  -- The first event that is no "reason" and starts in the step.
  bridge_of : R → R → List (Event R) → Option (Event R)
  bridge_of lo hi [] = none
  bridge_of lo hi (e ∷ events) =
      let later = bridge_of lo hi events in
      if not (str_eq e.category "reason") && le lo e.start && lt e.start hi then some e else later

  -- `boundaries[i + 1]`
  next_boundary : List (Event R) → R → R
  next_boundary [] max_end = max_end
  next_boundary (r ∷ reasons) max_end = r.start

  unfoldable pub durations_of : String → List (Event R) → List R
  unfolding duration_ms
  durations_of category [] = []
  durations_of category (e ∷ events) =
      let later = durations_of category events in
      if str_eq e.category category then duration_ms e ∷ later else later

  module _ (statistics : Statistics R) where
    open statistics use {round_ms, sum, mean, median}

    -- `_aggregate`
    unfoldable pub aggregate : R × List R → Aggregate R
    unfolding least greatest
    aggregate (first, more) = record {
      count = suc (length more);
      total_ms = round_ms (sum (first ∷ more));
      mean_ms = round_ms (mean first more);
      min_ms = round_ms (least first more);
      max_ms = round_ms (greatest first more);
      p50_ms = round_ms (median first more);
    }

    abbrev pub aggregates : List (String × (R × List R)) → List (String × Aggregate R)
    aggregates [] = []
    aggregates ((name, durations) ∷ groups) = (name, aggregate durations) ∷ aggregates groups

    -- `_summarize_metrics`
    unfoldable pub summarize_metrics : List (Metric R) → List (String × Aggregate R)
    unfolding by_name aggregate
    summarize_metrics metrics = aggregates (by_name [] metrics)

    row_of : Event R → Row R
    unfolding duration_ms
    row_of e = record {
      category = e.category;
      label = e.label;
      duration_ms = round_ms (duration_ms e);
    }

    bridge_row : Option (Event R) → Option (Row R)
    unfolding row_of
    bridge_row none = none
    bridge_row (some e) = some (row_of e)

    -- The steps, from the one with the index on.
    steps_from : ℕ → List (Event R) → R → List (Event R) → List (Step R)
    unfolding next_boundary bridge_of bridge_row duration_ms span_ms
    steps_from index events max_end [] = []
    steps_from index events max_end (r ∷ reasons) =
        let hi = next_boundary reasons max_end in
        record {
          index = index;
          duration_ms = round_ms (span_ms r.start hi);
          reason_ms = round_ms (duration_ms r);
          bridge = bridge_row (bridge_of r.start hi events);
        }
        ∷ steps_from (suc index) events max_end reasons

    scaffolding : R → List (Step R) → R
    scaffolding total [] = nought
    scaffolding total (s ∷ steps) =
        round_ms (sub total (sum (map (λ (x : Step R). x.duration_ms) (s ∷ steps))))

    -- The first look, and the others.
    model_load : List R → Option R
    model_load [] = none
    model_load (d ∷ ds) = some (round_ms d)

    steady_state : List R → Option (Aggregate R)
    unfolding aggregate
    steady_state [] = none
    steady_state (d ∷ []) = none
    steady_state (d ∷ d' ∷ ds) = some (aggregate (d', ds))

    rounded_metric : Metric R → Metric R
    rounded_metric m = record m { ms = round_ms m.ms }

    -- The summary of events of which there is one at least.
    summarize_events : Event R → List (Event R) → List (Metric R) → Summary R
    unfolding by_category aggregate least greatest sorted_reasons steps_from scaffolding model_load
        steady_state durations_of summarize_metrics row_of rounded_metric span_ms
    summarize_events e rest metrics =
        let events = e ∷ rest in
        let min_start = least e.start (map (λ (x : Event R). x.start) rest) in
        let max_end = greatest e.end (map (λ (x : Event R). x.end) rest) in
        let total = round_ms (span_ms min_start max_end) in
        let steps = steps_from 0 events max_end (sorted_reasons [] events) in
        let looks = durations_of "look" events in
        record {
          categories = aggregates (by_category [] events);
          steps = steps;
          total_ms = total;
          scaffolding_ms = scaffolding total steps;
          vlm_model_load_ms = model_load looks;
          vlm_steady_state = steady_state looks;
          rover = summarize_metrics metrics;
          events = map row_of events;
          metrics = map rounded_metric metrics;
        }

    unfoldable pub summarize : Collector R → Summary R
    unfolding summarize_events summarize_metrics rounded_metric
    summarize c = elim c.events [
      | [] ↦ record {
        categories = [];
        steps = [];
        total_ms = nought;
        scaffolding_ms = nought;
        vlm_model_load_ms = none;
        vlm_steady_state = none;
        rover = summarize_metrics c.metrics;
        events = [];
        metrics = map rounded_metric c.metrics;
      }
      | e ∷ rest ↦ summarize_events e rest c.metrics
    ]
