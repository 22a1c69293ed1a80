-- ===== src/Bridge/Link/Refining.antt =====
-- A call over the bridge beside the call on the rover (execute_command and capture_and_analyze of
-- bridge/client.py).
use rover_mind.Prelude.{
  ℕ, ◌+◌, String, ◌≡◌, refl, sym, ap, ◌∙◌, ◌⊎◌, inl, inr, Bool, true, [], ◌∷◌, if◌then◌else◌,
  str_eq, concat, Bool-cases,
}
use rover_mind.Prelude.Int.{pos}
use rover_mind.Prelude.Io.{
  Exception, Io, Result, ok, err, exception, is_caught, lift, mapped, bind-ok, bind-lift,
  Result-cases, ◌>>=◌,
}
use rover_mind.Prelude.Text.{Unicode}
use rover_mind.Float.{Float}
use rover_mind.Agent.{ExecuteResult, validate_command}
use rover_mind.Perception.{SceneObservation}
use rover_mind.Perception.Vision
use rover_mind.Bridge.Wire.{Json}
use rover_mind.Bridge.Timing.{Timed, timed_camera}
use rover_mind.Bridge.Timing.Transparent.{capture_and_analyze-Agrees}
use rover_mind.Bridge.Dicts.{ReadObservation, as_read}
use rover_mind.Bridge.Dicts.Returning.{scene_observation_from_dict-to_dict}
use rover_mind.Bridge.Values.{Value, int, float, text, Members, no_members, member, Interpreter}
use rover_mind.Bridge.Server.{
  Devices, Server, Handled, timed_reply, reply_of, execute_reply, look_reply, execute_with,
  look_with, with_timing, handle,
}
use rover_mind.Bridge.Client.{
  Client, request, call, exchanged, execute_result, execute_command, observation_result,
  capture_and_analyze,
}
use rover_mind.Bridge.Link.{link}
use rover_mind.Bridge.Link.Frames.{IsCarried, link-handle, link-raised}
use rover_mind.Bridge.Link.Replies.{
  seen_by_client, reply_result-reply_of, connection_lost, lost-closed, seen_by_client-uncaught,
  command_args, handle-execute, handle-look,
}

module _ {R : Type 0} ⦃f : Float R⦄ (py : Interpreter R) where
  -- An exception of the rover as the client of the bridge raises it: one kind keeps its class, every
  -- other that `except Exception` catches is an error of the bridge, and the rest stop the server.
  abbrev pub over_bridge : String → Exception → Exception
  over_bridge kind e =
      if str_eq e.kind kind
      then exception kind e.text
      else if is_caught e
      then exception "BridgeProtocolError" (
          concat (
            "bridge error "
            ∷ py.repr (text "internal_error")
            ∷ ": "
            ∷ concat (e.kind ∷ ": " ∷ e.text ∷ [])
            ∷ []))
      else connection_lost py

  abbrev pub execute_over_bridge : Result ExecuteResult → Result ExecuteResult
  execute_over_bridge (ok r) = ok r
  execute_over_bridge (err e) = err (over_bridge "CommandExecutorError" e)

  module _ {W Image : Type 0} (json : Json (Value R)) (u : Unicode) (clock : ℕ → R)
      (devices : Devices R W Image) where
    -- The request, and whatever the server replies to it, pass through JSON.
    abbrev pub IsCarriedCall : Value R → Server R W → Type 0
    IsCarriedCall req s =
        IsCarried json req
        × ((reply : Value R)
            → (handle u py clock devices req s).0 ≡ ok reply
            → IsCarried json reply)

  module _ {W Image : Type 0} (json : Json (Value R)) (u : Unicode) (clock client_clock : ℕ → R)
      (devices : Devices R W Image) (has_sink : Bool) where
    call-linked :
        (method : String) (args : Members R) (c : Client R (Server R W)) (h : Handled R)
        (s' : Server R W)
        → c.connected ≡ true
        → IsCarriedCall json u clock devices (request py c.next_id method args) c.link
        → handle u py clock devices (request py c.next_id method args) c.link
          ≡ with_timing u py clock devices (int (pos c.next_id)) (clock c.link.ticks) (h, s')
        → let r = call py client_clock has_sink (link json u py clock devices) method args c in
          (r.0 ≡ seen_by_client py h) × (r.1.link.world ≡ s'.world)
    unfolding call exchanged with_timing
    call-linked method args c h s' open_still (out, back) handled =
        let asked = request py c.next_id method args in
        let timed =
          λ (r : Result (Members R)). timed_reply u py clock devices (clock c.link.ticks) r s' in
        let failed : Exception → Result (Value R) = λ x. err x in
        elim (Result-cases (reply_of (int (pos c.next_id)) h)) [
          | inr (members, replies) ↦
              let whole = handled ∙ ap timed replies in
              let replied = ap (λ (r : Result (Value R) × Server R W). r.0) whole in
              let linked =
                link-handle json u py clock devices asked _ c.link out replied (back _ replied) in
              rw (open_still, linked, whole)
                (reply_result-reply_of py c.next_id _ h members replies, refl)
          | inl (e, stopped) ↦
              let whole = handled ∙ ap timed stopped in
              let linked =
                link-raised json u py clock devices asked e c.link out
                  (ap (λ (r : Result (Value R) × Server R W). r.0) whole) in
              rw (open_still, linked, whole)
                (
                  ap failed (lost-closed py)
                      ∙ sym (seen_by_client-uncaught py (int (pos c.next_id)) h e stopped),
                  refl,
                )
        ]

  execute_seen :
      (r : Result ExecuteResult)
      → mapped (λ v. execute_result py v) (seen_by_client py (execute_reply r))
        ≡ execute_over_bridge r
  unfolding execute_result
  execute_seen (ok r) = refl
  execute_seen (err e) = elim (Bool-cases (str_eq e.kind "CommandExecutorError")) [
    | inl a ↦ rw a refl
    | inr a ↦ elim (Bool-cases (is_caught e)) [ inl b ↦ rw (a, b) refl | inr b ↦ rw (a, b) refl ]
  ]

  -- The same of a look, where FrameCaptureError keeps its class.
  abbrev pub look_over_bridge : Result (SceneObservation R) → Result (ReadObservation R)
  look_over_bridge (ok obs) = ok (as_read obs)
  look_over_bridge (err e) = err (over_bridge "FrameCaptureError" e)

  look_seen :
      (r : Result (SceneObservation R))
      → mapped (observation_result py) (seen_by_client py (look_reply r)) ≡ look_over_bridge r
  unfolding observation_result
  look_seen (ok obs) = scene_observation_from_dict-to_dict py obs
  look_seen (err e) = elim (Bool-cases (str_eq e.kind "FrameCaptureError")) [
    | inl a ↦ rw a refl
    | inr a ↦ elim (Bool-cases (is_caught e)) [ inl b ↦ rw (a, b) refl | inr b ↦ rw (a, b) refl ]
  ]

  module _ {W Image : Type 0} (json : Json (Value R)) (u : Unicode) (clock client_clock : ℕ → R)
      (devices : Devices R W Image) (has_sink : Bool) (c : Client R (Server R W))
      (open_still : c.connected ≡ true) where
    -- A command over the bridge does what the rover's executor does with it, given an open connection
    -- and an executor that is built, where JSON carries the request and the reply: a command that
    -- fails the local check raises its error and leaves everything as it is; any other leaves the
    -- world as the executor leaves it, and returns the executor's result, or raises its exception: a
    -- CommandExecutorError by its own class and text, any other that `except Exception` catches as an
    -- error of the bridge, and KeyboardInterrupt or SystemExit, which stop the server without a reply,
    -- as a BridgeUnreachable.
    pub execute_command-refines :
        (heading_deg distance_m : R)
        → c.link.has_executor ≡ true
        → IsCarriedCall json u clock devices
            (request py c.next_id "execute_command" (command_args py heading_deg distance_m))
            c.link
        → let direct = devices.execute (float heading_deg) (float distance_m) c.link.world in
          let r =
            execute_command py client_clock has_sink
              (link json u py clock devices)
              heading_deg
              distance_m
              c in
          ((validate_command heading_deg distance_m ≡ ok tt)
            × (r.0 ≡ execute_over_bridge direct.0)
            × (r.1.link.world ≡ direct.1))
          ⊎ ((e : Exception) × (validate_command heading_deg distance_m ≡ err e) × (r ≡ (err e, c)))
    unfolding execute_command execute_with
    execute_command-refines heading_deg distance_m built carried =
        elim (Result-cases (validate_command heading_deg distance_m)) [
          | inl (e, refused) ↦ inr (e, refused, rw refused refl)
          | inr (checked, accepted) ↦
              let method_call : Io (Client R (Server R W)) (Value R) =
                call py client_clock has_sink (link json u py clock devices) "execute_command"
                  (command_args py heading_deg distance_m) in
              let direct = devices.execute (float heading_deg) (float distance_m) c.link.world in
              let (result, world) =
                call-linked json u clock client_clock devices has_sink "execute_command"
                  (command_args py heading_deg distance_m) c (execute_reply direct.0) _ open_still
                  carried
                  (handle-execute py u clock devices c.next_id heading_deg distance_m c.link
                    built) in
              let whole =
                bind-ok (lift (validate_command heading_deg distance_m))
                  (λ ok_to_send. method_call >>= λ v. lift (execute_result py v)) c checked c
                  (ap (λ (x : Result Unit). (x, c)) accepted)
                ∙ bind-lift method_call (execute_result py) c in
              inl (
                accepted,
                ap (λ (p : Result ExecuteResult × Client R (Server R W)). p.0) whole
                    ∙ ap (mapped (execute_result py)) result
                    ∙ execute_seen direct.0,
                ap (λ (p : Result ExecuteResult × Client R (Server R W)). p.1.link.world) whole
                    ∙ world,
              )
        ]

    -- A look over the bridge is a look on the rover, given an open connection and a vision model that
    -- is loaded, where JSON carries the request and the reply: it leaves the world as the look on the
    -- rover leaves it, and returns its observation with every field, or raises its exception: a
    -- FrameCaptureError by its own class and text, any other that `except Exception` catches as an
    -- error of the bridge, and KeyboardInterrupt or SystemExit, which stop the server without a reply,
    -- as a BridgeUnreachable. The timing of the model's calls changes none of this.
    pub capture_and_analyze-refines :
        (target : String)
        → c.link.has_moondream ≡ true
        → IsCarriedCall json u clock devices
            (request py c.next_id "capture_and_analyze" (member "target" (text target) no_members))
            c.link
        → let direct = Vision.capture_and_analyze u devices.camera target c.link.world in
          let r =
            capture_and_analyze py client_clock has_sink (link json u py clock devices) target c in
          (r.0 ≡ look_over_bridge direct.0) × (r.1.link.world ≡ direct.1)
    unfolding capture_and_analyze look_with
    capture_and_analyze-refines target built carried =
        let method_call : Io (Client R (Server R W)) (Value R) =
          call py client_clock has_sink (link json u py clock devices) "capture_and_analyze"
            (member "target" (text target) no_members) in
        let begun_look : Timed R W = record {
          world = c.link.world;
          ticks = c.link.ticks + 1 + 1;
          calls = [];
        } in
        let (same, left) = capture_and_analyze-Agrees u clock devices.camera target begun_look in
        let timed_look =
          Vision.capture_and_analyze u (timed_camera u clock devices.camera) target begun_look in
        let (result, world) =
          call-linked json u clock client_clock devices has_sink "capture_and_analyze"
            (member "target" (text target) no_members) c (look_reply timed_look.0) _ open_still
            carried (handle-look py u clock devices c.next_id target c.link built) in
        let whole = bind-lift method_call (observation_result py) c in
        (
          ap (λ (p : Result (ReadObservation R) × Client R (Server R W)). p.0) whole
              ∙ ap (mapped (observation_result py)) result
              ∙ look_seen timed_look.0
              ∙ ap look_over_bridge same,
          ap (λ (p : Result (ReadObservation R) × Client R (Server R W)). p.1.link.world) whole
              ∙ world
              ∙ left,
        )
