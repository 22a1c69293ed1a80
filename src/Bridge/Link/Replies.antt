-- ===== src/Bridge/Link/Replies.antt =====
-- The client's reading of the server's replies (reply_of of bridge/bridge_server.py against _call of
-- bridge/client.py).
use rover_mind.Prelude.{
  ℕ, ◌+◌, String, ◌≡◌, refl, inl, inr, true, [], ◌∷◌, arith, if◌then◌else◌, str_eq, concat,
  Bool-cases, sym, ap, ◌∙◌,
}
use rover_mind.Prelude.Int.{pos}
use rover_mind.Prelude.Io.{Exception, Result, ok, err, ok-inj, exception, is_caught}
use rover_mind.Prelude.Text.{Unicode}
use rover_mind.Float.{Float}
use rover_mind.Bridge.Values.{
  Value, int, float, text, object, Members, no_members, member, Interpreter, set, equals_int,
}
use rover_mind.Bridge.Server.{
  Devices, Server, Handled, done, bridge_error, raised, reply_of, execute_with, look_with,
  with_timing, handle,
}
use rover_mind.Bridge.Server.{ok_reply, error_reply}
use rover_mind.Bridge.Server.Answering.{reply_of-uncaught}
use rover_mind.Bridge.Link.{closed_stream}
use rover_mind.Bridge.Client.{request, reply_result, lost}

module _ {R : Type 0} ⦃f : Float R⦄ (py : Interpreter R) where
  -- The error of a handler, as the client raises it.
  abbrev pub error_seen : String → String → Exception
  error_seen type message =
      if str_eq type "ros_action_unavailable"
      then exception "CommandExecutorError" message
      else if str_eq type "vision_error"
      then exception "FrameCaptureError" message
      else exception "BridgeProtocolError"
          (concat ("bridge error " ∷ py.repr (text type) ∷ ": " ∷ message ∷ []))

  -- A server that has stopped, as the client raises it.
  abbrev pub connection_lost : Exception
  connection_lost =
      exception "BridgeUnreachable" (concat ("bridge connection lost: " ∷ closed_stream.text ∷ []))

  pub lost-closed : lost py closed_stream ≡ connection_lost
  unfolding lost
  lost-closed = elim (Bool-cases (py.is_os_error closed_stream.kind)) [
    | inl a ↦ rw a refl
    | inr a ↦ rw a refl
  ]

  abbrev pub seen_by_client : Handled R → Result (Value R)
  seen_by_client (done v) = ok v
  seen_by_client (bridge_error type message) = err (error_seen type message)
  seen_by_client (raised exc) =
      if is_caught exc
      then err (error_seen "internal_error" (concat (exc.kind ∷ ": " ∷ exc.text ∷ [])))
      else err connection_lost

  pub seen_by_client-uncaught :
      (id : Value R) (h : Handled R) (e : Exception)
      → reply_of id h ≡ err e
      → seen_by_client h ≡ err connection_lost
  seen_by_client-uncaught id h e stopped =
      let (same, uncaught) = reply_of-uncaught id h e stopped in
      ap seen_by_client same ∙ rw uncaught refl

  same_id : (n : ℕ) → equals_int {R = R} (int (pos n)) (pos n) ≡ true
  same_id n = ground arith

  -- What the client makes of the members of a reply.
  abbrev read_of : ℕ → Value R → Members R → Result (Value R)
  read_of n timing members = reply_result py n (object (set "timing" timing members))

  pub reply_result-reply_of :
      (n : ℕ) (timing : Value R) (h : Handled R) (members : Members R)
      → reply_of (int (pos n)) h ≡ ok members
      → read_of n timing members ≡ seen_by_client h
  unfolding reply_result set
  reply_result-reply_of n timing (done v) members e =
      ap (read_of n timing) (sym (ok-inj (ok_reply (int (pos n)) v) members e))
      ∙ rw (same_id n) refl
  reply_result-reply_of n timing (bridge_error type message) members e =
      ap (read_of n timing)
        (sym (ok-inj (error_reply (int (pos n)) (text type) (text message)) members e))
      ∙ elim (Bool-cases (str_eq type "ros_action_unavailable")) [
        | inl a ↦ rw (same_id n, a) refl
        | inr a ↦ elim (Bool-cases (str_eq type "vision_error")) [
          | inl b ↦ rw (same_id n, a, b) refl
          | inr b ↦ rw (same_id n, a, b) refl
        ]
      ]
  reply_result-reply_of n timing (raised exc) members e = elim (Bool-cases (is_caught exc)) [
    | inl caught ↦
        ap (read_of n timing) (
          sym (
            ok-inj
              (error_reply (int (pos n)) (text "internal_error")
                (text (concat (exc.kind ∷ ": " ∷ exc.text ∷ []))))
              members (rw caught at e)))
        ∙ rw (same_id n, caught) refl
    | inr other ↦ let wrong = rw other at e in absurd (cc)
  ]

  abbrev pub command_args : R → R → Members R
  command_args heading_deg distance_m =
      member "heading_degree" (float heading_deg)
        (member "distance_m" (float distance_m) no_members)

  module _ {W Image : Type 0} (u : Unicode) (clock : ℕ → R) (devices : Devices R W Image) where
    -- The server as `_handle` starts a handler.
    abbrev pub begun : Server R W → Server R W
    begun s = record s { ticks = s.ticks + 1; pending_timing = no_members }

    pub handle-execute :
        (n : ℕ) (heading_deg distance_m : R) (s : Server R W)
        → s.has_executor ≡ true
        → handle u py clock devices
            (request py n "execute_command" (command_args heading_deg distance_m))
            s
          ≡ with_timing u py clock devices (int (pos n)) (clock s.ticks) (
              execute_with u py clock devices
                (float heading_deg)
                (float distance_m)
                (ok tt, begun s))
    unfolding handle
    handle-execute n heading_deg distance_m s built = rw built refl

    pub handle-look :
        (n : ℕ) (target : String) (s : Server R W)
        → s.has_moondream ≡ true
        → handle u py clock devices
            (request py n "capture_and_analyze" (member "target" (text target) no_members))
            s
          ≡ with_timing u py clock devices
              (int (pos n))
              (clock s.ticks)
              (look_with u py clock devices (text target) (ok tt, begun s))
    unfolding handle
    handle-look n target s built = rw built refl
