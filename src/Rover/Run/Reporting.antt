-- ===== src/Rover/Run/Reporting.antt =====
-- The latency report of a run (main of scripts/run_agent.py).
use rover_mind.Prelude.{
  ℕ, String, ◌≡◌, refl, ap, ◌∙◌, Bool, true, false, not, ◌&&◌, none, some, Option, List, [], ◌∷◌,
  ◌++◌, if◌then◌else◌, str_eq, Bool-cases, inl, inr,
}
use mathlib.Core.List.{append-nil}
use rover_mind.Prelude.Io.{Io, Result, ok, err, Result-cases}
use rover_mind.Prelude.Int.{ℤ}
use rover_mind.Prelude.Text.{Unicode}
use rover_mind.Float.{Float}
use rover_mind.Agent.{ActionParams}
use rover_mind.Agent.Tools.{Rover, Binding}
use rover_mind.Agent.Graph.{Message, RoverState}
use rover_mind.Agent.Latency.{Collector, Event, Metric}
use rover_mind.Agent.Latency.Summary.{Statistics, Summary, summarize}
use rover_mind.Bridge.Values.{Members}
use rover_mind.Agent.Latency.Dict.{to_dict}
use rover_mind.Bridge.Client.Opening.{Url, Sockets}
use rover_mind.Rover.Run.{
  Options, Shown, unreachable, report, written, complete, tried, error_lines, last_lines,
  written_lines, emit_report, report_run, reported, finish_run, attempt, nothing_yet, main,
}

module _ {R Args : Type 0} where
  -- The reports among what was shown.
  abbrev pub reports : List (Shown R Args) → List (Summary R)
  reports [] = []
  reports (report summary ∷ rest) = summary ∷ reports rest
  reports (unreachable e ∷ rest) = reports rest
  reports (written path summary ∷ rest) = reports rest
  reports (complete final ∷ rest) = reports rest

  reports_append : (xs ys : List (Shown R Args)) → reports (xs ++ ys) ≡ reports xs ++ reports ys
  reports_append [] ys = refl
  reports_append (report summary ∷ rest) ys = rw (reports_append rest ys) refl
  reports_append (unreachable e ∷ rest) ys = reports_append rest ys
  reports_append (written path summary ∷ rest) ys = reports_append rest ys
  reports_append (complete final ∷ rest) ys = reports_append rest ys

  reports-error_lines : (r : Result (RoverState R Args)) → reports (error_lines r) ≡ []
  reports-error_lines (ok final) = refl
  reports-error_lines (err e) = elim (Bool-cases (str_eq e.kind "BridgeUnreachable")) [
    | inl u ↦ rw u refl
    | inr o ↦ rw o refl
  ]

  reports-last_lines : (r : Result (Option (RoverState R Args))) → reports (last_lines r) ≡ []
  reports-last_lines (err e) = refl
  reports-last_lines (ok none) = refl
  reports-last_lines (ok (some final)) = refl

-- Something was collected.
abbrev pub any_of : {R : Type 0} → List (Event R) → List (Metric R) → Bool
any_of [] [] = false
any_of [] (m ∷ rest) = true
any_of (e ∷ rest) metrics = true

module _ {R : Type 0} ⦃f : Float R⦄ (Args : Type 0) (statistics : Statistics R)
    (write : String → Members R → Result Unit) (options : Options) where
  -- The reports that a run is to show: one, if something was collected and it is asked for.
  abbrev pub wanted : List (Event R) → List (Metric R) → Collector R → List (Summary R)
  wanted events metrics c =
      if any_of events metrics && not options.no_report then summarize statistics c ∷ [] else []

  reports-written_lines :
      (summary : Summary R) (path : Option String)
      → reports (written_lines {R = R} {Args = Args} write summary path).1 ≡ []
  reports-written_lines summary none = refl
  reports-written_lines summary (some path) = elim (Bool-cases (str_eq path "")) [
    | inl empty ↦ rw empty refl
    | inr there ↦ rw there (elim (Result-cases (write path (to_dict summary))) [
      | inl (e, raised) ↦ rw raised refl
      | inr (x, done) ↦ rw done refl
    ])
  ]

  reports-emit_report :
      (summary : Summary R)
      → reports (emit_report {R = R} {Args = Args} statistics write options summary).1
        ≡ (if not options.no_report then summary ∷ [] else [])
  unfolding emit_report
  reports-emit_report summary =
      let lines = (written_lines {R = R} {Args = Args} write summary options.benchmark_json).1 in
      elim (Bool-cases options.no_report) [
        | inl quiet ↦ rw quiet (reports-written_lines summary options.benchmark_json)
        | inr loud ↦
            rw loud (ap (λ xs. summary ∷ xs) (reports-written_lines summary options.benchmark_json))
      ]

  reports-report_run :
      (events : List (Event R)) (metrics : List (Metric R)) (c : Collector R)
      → reports (report_run {R = R} {Args = Args} statistics write options events metrics c).1
        ≡ wanted events metrics c
  unfolding report_run
  reports-report_run [] [] c = refl
  reports-report_run [] (m ∷ rest) c = reports-emit_report (summarize statistics c)
  reports-report_run (e ∷ rest) metrics c = reports-emit_report (summarize statistics c)

  reports-finish_run :
      (r : Result (RoverState R Args)) (c : Collector R)
      → reports (finish_run statistics write options r c).1 ≡ wanted c.events c.metrics c
  unfolding finish_run
  reports-finish_run r c =
      let out = report_run {R = R} {Args = Args} statistics write options c.events c.metrics c in
      let last = last_lines (reported statistics write options out.0 (tried r)) in
      reports_append (error_lines r) (out.1 ++ last)
      ∙ ap (λ xs. xs ++ reports (out.1 ++ last)) (reports-error_lines r)
      ∙ reports_append out.1 last
      ∙ ap (λ xs. reports out.1 ++ xs)
          (reports-last_lines (reported statistics write options out.0 (tried r)))
      ∙ append-nil (reports out.1)
      ∙ reports-report_run c.events c.metrics c

module _ (u : Unicode) {R W Args : Type 0} ⦃f : Float R⦄ (clock : ℕ → R)
    (bridge : Rover R (Collector R × W)) (bind : Binding Args) (is_os_error : String → Bool)
    (sockets : Sockets (Collector R × W)) (urlparse : String → Result Url) (repr : String → String)
    (extract_target : String → String) (budget : ℕ) (statistics : Statistics R)
    (write : String → Members R → Result Unit) (options : Options) where
  -- Whatever the parameters, the model, the bridge, the graph and the file do, a run shows the report
  -- of what its collector has at the end, once, if that is something and the report is asked for, and
  -- no other report: also where the run raises, and where the bridge cannot be reached.
  pub main-Reports :
      (params : Result (ActionParams R × ℤ))
      (llm : Result (List (Message Args) → Io (Collector R × W) (Message Args))) (w : W)
      → let e =
          main u clock bridge bind is_os_error sockets urlparse repr extract_target budget
            statistics write options params llm w in
        reports e.shown
        ≡ wanted Args statistics write options e.collector.events e.collector.metrics e.collector
  unfolding main
  main-Reports (err e) llm w = refl
  main-Reports (ok params) (err e) w = refl
  main-Reports (ok (params, max_steps)) (ok llm) w =
      let (r, left) =
        attempt u clock bridge bind is_os_error sockets urlparse repr extract_target budget
          statistics write options params max_steps llm (nothing_yet, w) in
      reports-finish_run Args statistics write options r left.0
