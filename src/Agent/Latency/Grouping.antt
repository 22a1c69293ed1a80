-- ===== src/Agent/Latency/Grouping.antt =====
-- The groups of a latency summary (summarize of agent/latency.py).
use mathlib.Core.List.{append-nil, append_assoc}
use rover_mind.Prelude.{
  String, ◌≡◌, refl, sym, ap, ◌∙◌, inl, inr, false, Option, none, some, List, [], ◌∷◌, ◌++◌,
  if◌then◌else◌, str_eq, str_eq→eq, eq→str_eq, str_eq_differ, Bool-cases,
}
use rover_mind.Float.{Float}
use rover_mind.Agent.Latency.{Event, Collector}
use rover_mind.Agent.Latency.Summary.{
  Statistics, Aggregate, append_to, duration_ms, by_category, durations_of, aggregate, aggregates,
  summarize,
}

-- The entry of a name in a dict.
abbrev pub entry : {A : Type 0} → String → List (String × A) → Option A
entry name [] = none
entry name ((k, a) ∷ rest) = let later = entry name rest in if str_eq k name then some a else later

others_name : (name k key : String) → str_eq key k ≡ false → key ≡ name → str_eq k name ≡ false
others_name name k key differ same =
    str_eq_differ k name (λ e. let equal = eq→str_eq key k (same ∙ sym e) in absurd (cc))

module _ {R : Type 0} where
  -- A group with one duration more, and with a list of them.
  abbrev extended : Option (R × List R) → R → R × List R
  extended none d = (d, [])
  extended (some (first, more)) d = (first, more ++ d ∷ [])

  abbrev collected : Option (R × List R) → List R → Option (R × List R)
  collected o [] = o
  collected o (d ∷ ds) = collected (some (extended o d)) ds

  collected-some :
      (first : R) (more ds : List R) → collected (some (first, more)) ds ≡ some (first, more ++ ds)
  collected-some first more [] = ap (λ (l : List R). some (first, l)) (sym (append-nil more))
  collected-some first more (d ∷ ds) =
      collected-some first (more ++ d ∷ []) ds
      ∙ ap (λ (l : List R). some (first, l)) (append_assoc more (d ∷ []) ds)

  entry-append_to :
      (name k : String) (d : R) (groups : List (String × (R × List R)))
      → entry name (append_to k d groups)
        ≡ (if str_eq k name then some (extended (entry name groups) d) else entry name groups)
  unfolding append_to
  entry-append_to name k d [] = refl
  entry-append_to name k d ((key, (first, more)) ∷ groups) = elim (Bool-cases (str_eq key k)) [
    | inl same ↦
        let e = str_eq→eq key k same in
        elim (Bool-cases (str_eq key name)) [
          | inl here ↦ rw (same, sym e, here) refl
          | inr elsewhere ↦ rw (same, sym e, elsewhere) refl
        ]
    | inr differ ↦ elim (Bool-cases (str_eq key name)) [
      | inl here ↦ rw (differ, here, others_name name k key differ (str_eq→eq key name here)) refl
      | inr elsewhere ↦ rw (differ, elsewhere) (entry-append_to name k d groups)
    ]
  ]

module _ {R : Type 0} ⦃f : Float R⦄ where
  -- The groups hold the durations of the events, added to those that were there before.
  entry-by_category :
      (name : String) (groups : List (String × (R × List R))) (events : List (Event R))
      → entry name (by_category groups events)
        ≡ collected (entry name groups) (durations_of name events)
  unfolding by_category durations_of
  entry-by_category name groups [] = refl
  entry-by_category name groups (e ∷ events) =
      entry-by_category name (append_to e.category (duration_ms e) groups) events
      ∙ rw (entry-append_to name e.category (duration_ms e) groups)
          (elim (Bool-cases (str_eq e.category name)) [
            | inl same ↦ rw same refl
            | inr differ ↦ rw differ refl
          ])

  module _ (statistics : Statistics R) where
    abbrev pub aggregated : Option (R × List R) → Option (Aggregate R)
    aggregated none = none
    aggregated (some durations) = some (aggregate statistics durations)

    entry-aggregates :
        (name : String) (groups : List (String × (R × List R)))
        → entry name (aggregates statistics groups) ≡ aggregated (entry name groups)
    entry-aggregates name [] = refl
    entry-aggregates name ((k, durations) ∷ groups) = elim (Bool-cases (str_eq k name)) [
      | inl here ↦ rw here refl
      | inr elsewhere ↦ rw elsewhere (entry-aggregates name groups)
    ]

    -- What is expected of the events of one category, given their durations.
    abbrev pub expected : List R → Option (Aggregate R)
    expected [] = none
    expected (d ∷ ds) = some (aggregate statistics (d, ds))

    collected-expected :
        (durations : List R) → aggregated (collected none durations) ≡ expected durations
    collected-expected [] = refl
    collected-expected (d ∷ ds) = ap aggregated (collected-some d [] ds)

    categories-eq :
        (name : String) (events : List (Event R))
        → entry name (aggregates statistics (by_category [] events))
          ≡ expected (durations_of name events)
    categories-eq name events =
        entry-aggregates name (by_category [] events)
        ∙ ap aggregated (entry-by_category name [] events)
        ∙ collected-expected (durations_of name events)

    -- The summary has an entry for a category exactly where an event has it, and the entry is the
    -- aggregate of the durations of all of its events, in the order in which they were recorded.
    pub summarize-categories :
        (c : Collector R) (name : String)
        → entry name (summarize statistics c).categories ≡ expected (durations_of name c.events)
    unfolding summarize
    summarize-categories c name = by_events c.events
      where
        by_events :
            (events : List (Event R))
            → entry name (summarize statistics (record c { events = events })).categories
              ≡ expected (durations_of name events)
        by_events [] = refl
        by_events (e ∷ rest) = categories-eq name (e ∷ rest)
