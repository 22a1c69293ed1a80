-- ===== src/Bridge/Client/Sink.antt =====
-- What the client pushes to its timing sink (_forward_timing and _emit of bridge/client.py).
use rover_mind.Prelude.{String, Bool, none, some, List, [], ◌∷◌, ◌++◌, if◌then◌else◌, concat}
use rover_mind.Float.{Float, nought, max}
use rover_mind.Agent.Latency.{Metric}
use rover_mind.Bridge.Values.{
  Value, null, float, Members, no_members, member, Interpreter, get, get_or, members_of, is_number,
  to_float,
}

module _ {R : Type 0} ⦃f : Float R⦄ (py : Interpreter R) where
  open f use {sub}

  -- `_emit`, on what the sink holds.
  emit : String → String → Value R → List (Metric R) → List (Metric R)
  emit method name v pushed = elim (to_float py v) [
    | none ↦ pushed
    | some ms ↦ pushed ++ record { method = method; name = name; ms = ms } ∷ []
  ]

  -- The inner loop of `_forward_timing`, over a nested dict.
  emit_nested : String → String → Members R → List (Metric R) → List (Metric R)
  unfolding emit
  emit_nested method name no_members pushed = pushed
  emit_nested method name (member below v rest) pushed =
      emit_nested method name rest (emit method (concat (name ∷ "." ∷ below ∷ [])) v pushed)

  emit_value : String → String → Value R → List (Metric R) → List (Metric R)
  unfolding emit_nested
  emit_value method name v pushed = elim (members_of v) [
    | none ↦ emit method name v pushed
    | some nested ↦ emit_nested method name nested pushed
  ]

  emit_all : String → Members R → List (Metric R) → List (Metric R)
  unfolding emit_value
  emit_all method no_members pushed = pushed
  emit_all method (member name v rest) pushed =
      emit_all method rest (emit_value method name v pushed)

  -- The end of `_forward_timing`, on `timing.get("server_ms")`.
  emit_overhead : String → R → Value R → List (Metric R) → List (Metric R)
  unfolding emit
  emit_overhead method round_trip_ms server_ms pushed = elim (to_float py server_ms) [
    | none ↦ pushed
    | some ms ↦
        if is_number server_ms
        then emit method "transport_overhead_ms" (float (max nought (sub round_trip_ms ms))) pushed
        else pushed
  ]

  unfoldable pub forward_timing : Bool → String → R → Value R → List (Metric R) → List (Metric R)
  unfolding emit_all emit_overhead get
  forward_timing has_sink method round_trip_ms timing pushed =
      if has_sink
      then (elim (members_of timing) [
        | none ↦ pushed
        | some timings ↦
            emit_overhead method round_trip_ms (get_or "server_ms" null timings)
              (emit_all method timings (emit method "round_trip_ms" (float round_trip_ms) pushed))
      ])
      else pushed
