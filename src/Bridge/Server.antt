-- ===== src/Bridge/Server.antt =====
-- The bridge server (bridge/bridge_server.py): its dispatch of one request, and its handlers. The
-- command executor and the vision model, built on the first call that needs them, are parameters, as
-- are the cameras.
pub mod Replies
pub mod Answering
use rover_mind.Prelude.{
  ℕ, zero, suc, ◌+◌, String, Bool, true, false, not, ◌&&◌, Option, none, some, List, [], ◌∷◌,
  if◌then◌else◌, str_eq, concat, ◌==◌,
}
use rover_mind.Prelude.Io.{Exception, Io, Result, ok, err, exception}
use rover_mind.Prelude.Text.{Unicode}
use rover_mind.Float.{Float}
use rover_mind.Perception.{SceneObservation}
use rover_mind.Perception.Vision.{Camera, capture_and_analyze}
use rover_mind.Agent.{ExecuteResult}
use rover_mind.Bridge.Values.{
  Value, null, boolean, float, text, object, Members, no_members, member, Interpreter, get, get_or,
  set, size, members_of, is_hashable, is_truthy, is_text, to_text, prefix,
}
use rover_mind.Bridge.Timing.{Timed, elapsed_ms, aggregate, timed_camera}
use rover_mind.Bridge.Dicts.{scene_observation_to_dict}
pub use Replies.*

pub record Devices (R W Image : Type 0) : Type 0 where
  -- `CommandExecutor()` and its `execute`
  pub build_executor : Io W Unit
  pub execute : Value R → Value R → Io W ExecuteResult
  -- `self._moondream_factory()`
  pub build_moondream : Io W Unit
  pub camera : Camera R W Image

-- The server with the world outside: the clock readings taken, `_command_executor` and `_moondream`
-- where they are not None, and `_pending_timing`.
pub record Server (R W : Type 0) : Type 0 where
  pub world : W
  pub ticks : ℕ
  pub has_executor : Bool
  pub has_moondream : Bool
  pub pending_timing : Members R

module _ (u : Unicode) {R W Image : Type 0} ⦃f : Float R⦄ (py : Interpreter R) (clock : ℕ → R)
    (devices : Devices R W Image) where
  open devices use {build_executor, execute, build_moondream, camera}

  -- `if self._command_executor is None`, and what the construction came to.
  pub executor_built : Result Unit × W → Server R W → Result Unit × Server R W
  executor_built (ok tt, w) s = (ok tt, record s { world = w; has_executor = true })
  executor_built (err e, w) s = (err e, record s { world = w })

  pub ensure_executor : Server R W → Result Unit × Server R W
  unfolding executor_built
  ensure_executor s =
      if s.has_executor then (ok tt, s) else executor_built (build_executor s.world) s

  -- `with _record_ms(self._pending_timing, "action_ms")` around the execution.
  unfoldable pub execute_with :
      Value R → Value R → Result Unit × Server R W → Handled R × Server R W
  execute_with heading_degree distance_m (err e, s) = (raised e, s)
  execute_with heading_degree distance_m (ok tt, s) =
      let (r, w) = execute heading_degree distance_m s.world in
      let ms = elapsed_ms (clock s.ticks) (clock (s.ticks + 1)) in
      (
        execute_reply r,
        record s {
          world = w;
          ticks = s.ticks + 2;
          pending_timing = set "action_ms" (float ms) s.pending_timing;
        },
      )

  -- The same of the vision model.
  pub moondream_built : Result Unit × W → Server R W → Result Unit × Server R W
  moondream_built (ok tt, w) s = (ok tt, record s { world = w; has_moondream = true })
  moondream_built (err e, w) s = (err e, record s { world = w })

  pub ensure_moondream : Server R W → Result Unit × Server R W
  unfolding moondream_built
  ensure_moondream s =
      if s.has_moondream then (ok tt, s) else moondream_built (build_moondream s.world) s

  -- The look, timed as a whole and call by call; both are recorded on every path.
  unfoldable pub look_with : Value R → Result Unit × Server R W → Handled R × Server R W
  unfolding aggregate capture_and_analyze
  look_with target (err e, s) = (raised e, s)
  look_with target (ok tt, s) =
      let begun : Timed R W = record { world = s.world; ticks = s.ticks + 1; calls = [] } in
      let (r, t) = capture_and_analyze u (timed_camera u clock camera) (to_text py target) begun in
      let ms = elapsed_ms (clock s.ticks) (clock t.ticks) in
      (
        look_reply r,
        record s {
          world = t.world;
          ticks = t.ticks + 1;
          pending_timing =
              set "vlm" (object (totals_members (aggregate t.calls)))
                (set "vlm_ms" (float ms) s.pending_timing);
        },
      )

  type_error : String → Members R → Handled R
  type_error name args = raised (exception "TypeError" (py.binding_error name (object args)))

  -- `handler(**args)`, of each method: the keywords must be its parameters.
  call_ping : Members R → Server R W → Handled R × Server R W
  unfolding type_error
  call_ping no_members s = (done (text "pong"), s)
  call_ping (member k v rest) s = (type_error "ping" (member k v rest), s)

  bound_execute :
      Members R → Option (Value R) → Option (Value R) → Server R W → Handled R × Server R W
  unfolding type_error ensure_executor execute_with
  bound_execute args (some heading_degree) (some distance_m) s =
      if size args == 2
      then execute_with heading_degree distance_m (ensure_executor s)
      else (type_error "execute_command" args, s)
  bound_execute args (some heading_degree) none s = (type_error "execute_command" args, s)
  bound_execute args none d s = (type_error "execute_command" args, s)

  bound_look : Members R → Option (Value R) → Server R W → Handled R × Server R W
  unfolding type_error ensure_moondream look_with
  bound_look args (some target) s =
      if size args == 1
      then look_with target (ensure_moondream s)
      else (type_error "capture_and_analyze" args, s)
  bound_look args none s = (type_error "capture_and_analyze" args, s)

  -- The handler that `self._methods.get(method)` finds.
  pub handler_of : Value R → Option (Members R → Server R W → Handled R × Server R W)
  unfolding call_ping bound_execute bound_look get
  handler_of method =
      if is_text method "ping"
      then some call_ping
      else if is_text method "execute_command"
      then some (λ args s. bound_execute args (get "heading_degree" args) (get "distance_m" args) s)
      else if is_text method "capture_and_analyze"
      then some (λ args s. bound_look args (get "target" args) s)
      else none

  -- `handler(**args)`, where the arguments may be no dict.
  pub call_handler :
      (Members R → Server R W → Handled R × Server R W)
      → Value R
      → Server R W
      → Handled R × Server R W
  call_handler handler args s = elim (members_of args) [
    | none ↦ (raised (exception "TypeError" (py.binding_error "" args)), s)
    | some keywords ↦ handler keywords s
  ]

  -- The end of `_handle`: the timing is attached to the reply.
  abbrev pub timed_reply : R → Result (Members R) → Server R W → Result (Value R) × Server R W
  timed_reply start (err e) s = (err e, s)
  timed_reply start (ok reply) s =
      let ms = elapsed_ms start (clock s.ticks) in
      let timing = set "server_ms" (float ms) s.pending_timing in
      (
        ok (object (set "timing" (object timing) reply)),
        record s { ticks = s.ticks + 1; pending_timing = timing },
      )

  unfoldable pub with_timing : Value R → R → Handled R × Server R W → Result (Value R) × Server R W
  with_timing id start (handled, s) = timed_reply start (reply_of id handled) s

  -- The branch of `_handle` on the handler.
  pub dispatch_to :
      Value R
      → Value R
      → Value R
      → Option (Members R → Server R W → Handled R × Server R W)
      → Server R W
      → Result (Value R) × Server R W
  unfolding call_handler with_timing
  dispatch_to id method args none s = (
    ok (
        object
          (error_reply id (text "unknown_method") (if is_truthy method then method else text ""))),
    s,
  )
  dispatch_to id method args (some handler) s =
      let begun = record s { ticks = s.ticks + 1; pending_timing = no_members } in
      with_timing id (clock s.ticks) (call_handler handler args begun)

  malformed_request : Value R → Server R W → Result (Value R) × Server R W
  malformed_request request s = (
    ok (
        object
          (error_reply null (text "malformed_request") (text (prefix 200 (to_text py request))))),
    s,
  )

  -- `_handle` on a dict with an id. A method that cannot be looked up raises.
  pub handle_members : Value R → Members R → Server R W → Result (Value R) × Server R W
  unfolding dispatch_to handler_of
  handle_members id request s =
      let method = get_or "method" null request in
      let args = get_or "args" (object no_members) request in
      if is_hashable method
      then dispatch_to id method (if is_truthy args then args else object no_members)
          (handler_of method) s
      else (err (exception "TypeError" (py.unhashable method)), s)

  handle_id : Value R → Members R → Option (Value R) → Server R W → Result (Value R) × Server R W
  unfolding malformed_request handle_members
  handle_id request o none s = malformed_request request s
  handle_id request o (some id) s = handle_members id o s

  unfoldable pub handle : Value R → Server R W → Result (Value R) × Server R W
  unfolding malformed_request handle_id get
  handle request s = elim (members_of request) [
    | none ↦ malformed_request request s
    | some o ↦ handle_id request o (get "id" o) s
  ]
