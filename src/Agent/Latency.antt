-- ===== src/Agent/Latency.antt =====
-- The collector of the latency report (agent/latency.py): timed spans and the rover's own timings. The
-- clock is any sequence of readings.
pub mod Summary
pub mod Grouping
pub mod Report
pub mod Dict
mod Tests
use rover_mind.Prelude.{
  ℕ, zero, suc, ◌+◌, String, Bool, true, false, not, ◌&&◌, Option, none, some, List, [], ◌∷◌, ◌++◌,
  map, if◌then◌else◌, str_eq, length,
}
use rover_mind.Prelude.Io.{Io}
use rover_mind.Float.{Float, nought}

pub record Event (R : Type 0) : Type 0 where
  pub category : String
  pub label : String
  pub start : R
  pub end : R

pub record Metric (R : Type 0) : Type 0 where
  pub method : String
  pub name : String
  pub ms : R

-- `LatencyCollector`, with the number of clock readings that were taken.
pub record Collector (R : Type 0) : Type 0 where
  pub ticks : ℕ
  pub events : List (Event R)
  pub metrics : List (Metric R)

module _ {R : Type 0} where
  unfoldable pub record_event : String → String → R → R → Collector R → Collector R
  record_event category label start end c = record c {
    events =
        c.events ++ record { category = category; label = label; start = start; end = end } ∷ [];
  }

  unfoldable pub record_metric : String → String → R → Collector R → Collector R
  record_metric method name ms c = record c {
    metrics = c.metrics ++ record { method = method; name = name; ms = ms } ∷ [];
  }

  module _ {W : Type 0} (clock : ℕ → R) where
    -- The block of a `span`, which may take readings of its own.
    unfoldable pub span :
        {A : Type 0} → String → String → Io (Collector R × W) A → Io (Collector R × W) A
    unfolding record_event
    span category label block (c, w) =
        let (r, (c', w')) = block (record c { ticks = c.ticks + 1 }, w) in
        (
          r,
          (
            record_event category label (clock c.ticks) (clock c'.ticks)
                (record c' { ticks = c'.ticks + 1 }),
            w',
          ),
        )

    -- `TimingLLM.invoke`
    unfoldable pub timed_invoke :
        {Messages Answer : Type 0}
        → String
        → (Messages → Io (Collector R × W) Answer)
        → Messages
        → Io (Collector R × W) Answer
    unfolding span
    timed_invoke label invoke messages = span "reason" label (invoke messages)

    -- `timed`, where the label may be computed of the arguments.
    unfoldable pub timed :
        {Args A : Type 0}
        → (Args → Io (Collector R × W) A)
        → String
        → Option (Args → String)
        → Args
        → Io (Collector R × W) A
    unfolding span
    timed fn category none args = span category "" (fn args)
    timed fn category (some label_fn) args = span category (label_fn args) (fn args)
