-- ===== src/Bridge/Client.antt =====
-- The client of the bridge (bridge/client.py). The exchange of a frame for a frame over the open stream
-- is a parameter; the timing sink is a list of what was pushed to it.
pub mod Sink
pub mod Opening
use rover_mind.Prelude.{
  ℕ, ◌+◌, String, Bool, false, ◌&&◌, Option, none, some, List, [], ◌∷◌, ◌++◌, if◌then◌else◌, str_eq,
  concat,
}
use rover_mind.Prelude.Int.{pos}
use rover_mind.Prelude.Io.{Exception, Io, Result, ok, err, exception, lift, ◌>>=◌}
use rover_mind.Float.{Float, nought, max}
use rover_mind.Agent.Latency.{Metric}
use rover_mind.Agent.{ExecuteResult, validate_command}
use rover_mind.Bridge.Values.{
  Value, null, boolean, int, float, text, object, Members, no_members, member, Interpreter, get,
  get_or, members_of, text_of, is_truthy, is_text, is_number, equals_int, to_float, to_text,
  item_of,
}
use rover_mind.Bridge.Timing.{elapsed_ms}
use rover_mind.Bridge.Dicts.{ReadObservation, scene_observation_from_dict}
use rover_mind.Bridge.Client.Sink.{forward_timing}

-- The client with the other end of its stream.
pub record Client (R L : Type 0) : Type 0 where
  -- `self._stream is not None`
  pub connected : Bool
  pub next_id : ℕ
  pub ticks : ℕ
  pub metrics : List (Metric R)
  pub link : L

pub protocol_error : {A : Type 0} → List String → Result A
protocol_error pieces = err (exception "BridgeProtocolError" (concat pieces))

module _ {R : Type 0} ⦃f : Float R⦄ (py : Interpreter R) where
  unexpected_reply : Value R → Result (Value R)
  unfolding protocol_error
  unexpected_reply reply = protocol_error ("unexpected reply: " ∷ py.repr reply ∷ [])

  -- The exception that an error reply is turned into.
  error_from : Members R → Result (Value R)
  unfolding get protocol_error
  error_from error =
      let type = get_or "type" (text "") error in
      let message = get_or "message" (text "") error in
      if is_text type "ros_action_unavailable"
      then err (exception "CommandExecutorError" (to_text py message))
      else if is_text type "vision_error"
      then err (exception "FrameCaptureError" (to_text py message))
      else protocol_error ("bridge error " ∷ py.repr type ∷ ": " ∷ to_text py message ∷ [])

  error_result : Value R → Result (Value R)
  unfolding error_from
  error_result error = elim (members_of error) [
    | none ↦ err (exception "AttributeError" (py.no_get error))
    | some o ↦ error_from o
  ]

  -- `reply.get("ok") is True`
  abbrev is_true : Value R → Bool
  is_true (boolean b) = b
  is_true _ = false

  -- `reply.get("id") == request_id`
  abbrev answers_id : ℕ → Option (Value R) → Bool
  answers_id id none = false
  answers_id id (some v) = equals_int v (pos id)

  -- The result of `_call`, by its reply.
  unfoldable pub reply_result : ℕ → Value R → Result (Value R)
  unfolding unexpected_reply error_result get
  reply_result id reply = elim (members_of reply) [
    | none ↦ unexpected_reply reply
    | some o ↦
        if answers_id id (get "id" o)
        then (if is_true (get_or "ok" null o)
            then item_of "result" o
            else error_result (get_or "error" (object no_members) o))
        else unexpected_reply reply
  ]

  -- What `_call` pushes to the sink, by its reply.
  unfoldable pub reply_metrics : Bool → String → ℕ → R → Value R → List (Metric R) → List (Metric R)
  unfolding forward_timing get
  reply_metrics has_sink method id round_trip_ms reply pushed = elim (members_of reply) [
    | none ↦ pushed
    | some o ↦
        if answers_id id (get "id" o) && is_true (get_or "ok" null o)
        then forward_timing py has_sink method round_trip_ms (get_or "timing" null o) pushed
        else pushed
  ]

  -- An exception of the exchange.
  unfoldable pub lost : Exception → Exception
  lost e =
      if py.is_os_error e.kind
      then exception "BridgeUnreachable" (concat ("bridge connection lost: " ∷ e.text ∷ []))
      else if str_eq e.kind "MalformedFrameError"
      then exception "BridgeUnreachable" (concat ("bridge connection lost: " ∷ e.text ∷ []))
      else e

  -- `request`, of `_call`.
  abbrev pub request : ℕ → String → Members R → Value R
  request id method args = object (
      member "id" (int (pos id))
        (member "method" (text method) (member "args" (object args) no_members)))

  ping_result : Value R → Result String
  unfolding protocol_error
  ping_result result = elim (text_of result) [
    | none ↦ protocol_error ("ping returned non-string: " ∷ py.repr result ∷ [])
    | some t ↦ ok t
  ]

  malformed_result : {A : Type 0} → String → Value R → Result A
  unfolding protocol_error
  malformed_result method result =
      protocol_error ("malformed " ∷ method ∷ " result: " ∷ py.repr result ∷ [])

  -- The two tests of `execute_command` on its result, by the two members.
  both_members : Value R → Option (Value R) → Option (Value R) → Result ExecuteResult
  unfolding malformed_result
  both_members result (some success) (some message) =
      ok (record { success = is_truthy success; message = to_text py message })
  both_members result (some success) none = malformed_result "execute_command" result
  both_members result none message = malformed_result "execute_command" result

  unfoldable pub execute_result : Value R → Result ExecuteResult
  unfolding both_members get
  execute_result result = elim (members_of result) [
    | none ↦ malformed_result "execute_command" result
    | some o ↦ both_members result (get "success" o) (get "message" o)
  ]

  unfoldable pub observation_result : Value R → Result (ReadObservation R)
  unfolding malformed_result scene_observation_from_dict
  observation_result result = elim (members_of result) [
    | none ↦ malformed_result "capture_and_analyze" result
    | some o ↦ scene_observation_from_dict py o
  ]

  module _ {L : Type 0} (clock : ℕ → R) (has_sink : Bool)
      (exchange : Value R → Io L (Value R)) where
    -- `_call` after the exchange.
    unfoldable pub exchanged :
        String → Result (Value R) × L → Client R L → Result (Value R) × Client R L
    unfolding lost reply_result reply_metrics
    exchanged method (err e, l) c =
        (err (lost e), record c { next_id = c.next_id + 1; ticks = c.ticks + 1; link = l })
    exchanged method (ok reply, l) c =
        let ms = elapsed_ms (clock c.ticks) (clock (c.ticks + 1)) in
        (
          reply_result c.next_id reply,
          record c {
            next_id = c.next_id + 1;
            ticks = c.ticks + 2;
            metrics = reply_metrics has_sink method c.next_id ms reply c.metrics;
            link = l;
          },
        )

    unfoldable pub call : String → Members R → Io (Client R L) (Value R)
    unfolding exchanged
    call method args c =
        if c.connected
        then exchanged method (exchange (request c.next_id method args) c.link) c
        else (err (exception "BridgeUnreachable" "client used outside of `with` block"), c)

    unfoldable pub ping : Io (Client R L) String
    unfolding call ping_result
    ping = call "ping" no_members >>= λ result. lift (ping_result result)

    unfoldable pub execute_command : R → R → Io (Client R L) ExecuteResult
    unfolding call execute_result validate_command
    execute_command heading_deg distance_m =
        lift (validate_command heading_deg distance_m) >>= λ checked.
        call "execute_command" (
          member "heading_degree" (float heading_deg)
            (member "distance_m" (float distance_m) no_members))
        >>= λ result. lift (execute_result result)

    unfoldable pub capture_and_analyze : String → Io (Client R L) (ReadObservation R)
    unfolding call observation_result
    capture_and_analyze target =
        call "capture_and_analyze" (member "target" (text target) no_members) >>= λ result.
        lift (observation_result result)
