-- ===== src/Bridge/Server/Replies.antt =====
-- What a handler comes to, and the reply to it (bridge/bridge_server.py).
use rover_mind.Prelude.{String, true, false, List, [], ◌∷◌, if◌then◌else◌, str_eq, concat}
use rover_mind.Prelude.Io.{Exception, Result, ok, err, is_caught}
use rover_mind.Perception.{SceneObservation}
use rover_mind.Agent.{ExecuteResult}
use rover_mind.Bridge.Values.{Value, boolean, float, text, object, Members, no_members, member}
use rover_mind.Bridge.Dicts.{scene_observation_to_dict}

-- What a handler call comes to: a result, a `_BridgeError`, or another exception.
pub data Handled (R : Type 0) : Type 0 where
  done : Value R → Handled R
  bridge_error : String → String → Handled R
  raised : Exception → Handled R

module _ {R : Type 0} where
  -- `{"type": ..., "message": ...}`
  abbrev pub error_object : Value R → Value R → Value R
  error_object type message = object (member "type" type (member "message" message no_members))

  -- A reply without its timing.
  abbrev pub ok_reply : Value R → Value R → Members R
  ok_reply id result =
      member "id" id (member "ok" (boolean true) (member "result" result no_members))

  abbrev pub error_reply : Value R → Value R → Value R → Members R
  error_reply id type message =
      member "id" id
        (member "ok" (boolean false) (member "error" (error_object type message) no_members))

  -- The reply before its timing. What `except Exception` does not catch leaves `_handle`.
  abbrev pub reply_of : Value R → Handled R → Result (Members R)
  reply_of id (done result) = ok (ok_reply id result)
  reply_of id (bridge_error type message) = ok (error_reply id (text type) (text message))
  reply_of id (raised exc) =
      if is_caught exc
      then ok
          (error_reply id (text "internal_error") (text (concat (exc.kind ∷ ": " ∷ exc.text ∷ []))))
      else err exc

  -- `{"success": ..., "message": ...}`
  abbrev pub result_members : ExecuteResult → Members R
  result_members r =
      member "success" (boolean r.success) (member "message" (text r.message) no_members)

  -- The end of `_execute_command`.
  abbrev pub execute_reply : Result ExecuteResult → Handled R
  execute_reply (ok r) = done (object (result_members r))
  execute_reply (err e) =
      if str_eq e.kind "CommandExecutorError"
      then bridge_error "ros_action_unavailable" e.text
      else raised e

  -- The end of `_capture_and_analyze`.
  abbrev pub look_reply : Result (SceneObservation R) → Handled R
  look_reply (ok obs) = done (object (scene_observation_to_dict obs))
  look_reply (err e) =
      if str_eq e.kind "FrameCaptureError" then bridge_error "vision_error" e.text else raised e

  abbrev pub totals_members : List (String × R) → Members R
  totals_members [] = no_members
  totals_members ((label, ms) ∷ rest) = member label (float ms) (totals_members rest)
