-- ===== src/Agent/Tools.antt =====
-- The five tools of the agent (build_tools in agent/tools.py), and how a call reaches one of them.
-- The injected functions are parameters, as is the argument binding of the tool library.
use rover_mind.Prelude.{String, not, Option, none, some, [], ◌∷◌, if◌then◌else◌, str_eq, concat}
use rover_mind.Prelude.Io.{Io, Result, ok, err, is_caught, pure, lift, ◌>>=◌}
use rover_mind.Prelude.Text.{Unicode}
use rover_mind.Float.{Float, nought}
use rover_mind.Perception.{SceneObservation}
use rover_mind.Agent.{
  ActionParams, ExecuteResult, turn_degrees, forward_meters, search_degrees, format_observation,
}

-- The world with `look_obs_holder["obs"]`, the sink that the tools share with `act_node`.
pub record Rig (R W : Type 0) : Type 0 where
  pub obs : Option (SceneObservation R)
  pub world : W

-- `execute_command` and `capture_and_analyze`.
pub record Rover (R W : Type 0) : Type 0 where
  pub execute : R → R → Io W ExecuteResult
  pub capture : String → Io W (SceneObservation R)

-- How `tool_obj.invoke` binds the arguments of a call to the parameters of each tool; it raises where
-- they do not fit. `reason` is `args.get("reason", "stop")`, and `no_args` the empty dict.
pub record Binding (Args : Type 0) : Type 0 where
  pub look : Args → Result String
  pub turn : Args → Result (String × String)
  pub forward : Args → Result String
  pub search : Args → Result Unit
  pub stop : Args → Result String
  pub reason : Args → String
  pub no_args : Args

-- A call of the outside world from the tools, which leaves the sink.
abbrev pub outside : {R W A : Type 0} → Io W A → Io (Rig R W) A
outside m rig = let (r, world') = m rig.world in (r, record rig { world = world' })

module _ (u : Unicode) {R W : Type 0} ⦃f : Float R⦄ (rover : Rover R W)
    (params : ActionParams R) where
  open f use {fixed}

  -- The `try` of `look`, with what the capture gave and the world after it.
  unfoldable pub looked : Result (SceneObservation R) → Rig R W → Result String × Rig R W
  unfolding format_observation
  looked (err exc) rig =
      if is_caught exc
      then (ok (concat ("look failed: " ∷ exc.text ∷ [])), record rig { obs = none })
      else (err exc, rig)
  looked (ok obs) rig = (ok (format_observation obs), record rig { obs = some obs })

  unfoldable pub look : String → Io (Rig R W) String
  unfolding looked
  look target rig =
      let (r, world') = rover.capture target rig.world in looked r (record rig { world = world' })

  -- The message of a movement: the failure that is reported, or the given text.
  unfoldable pub report : ExecuteResult → String → String
  report result done =
      if not result.success then concat ("move failed: " ∷ result.message ∷ []) else done

  -- The call of `execute_command` that the three movement tools end with.
  unfoldable pub move : R → R → String → Io (Rig R W) String
  unfolding report
  move heading_deg distance_m done = do
    result ← outside (rover.execute heading_deg distance_m)
    pure (report result done)

  unfoldable pub turn_by : R → Io (Rig R W) String
  unfolding move
  turn_by deg = move deg nought (concat ("turn complete: rotated " ∷ fixed 0 deg ∷ " deg" ∷ []))

  unfoldable pub turn : String → String → Io (Rig R W) String
  unfolding turn_degrees turn_by
  turn direction magnitude = do deg ← lift (turn_degrees u direction magnitude params); turn_by deg

  unfoldable pub drive_by : R → Io (Rig R W) String
  unfolding move
  drive_by m = move nought m (concat ("forward complete: drove " ∷ fixed 2 m ∷ " m" ∷ []))

  unfoldable pub forward : String → Io (Rig R W) String
  unfolding forward_meters drive_by
  forward distance = do m ← lift (forward_meters u distance params); drive_by m

  unfoldable pub search : Io (Rig R W) String
  unfolding move
  search =
      move (search_degrees params) nought
        (concat ("search complete: rotated " ∷ fixed 0 (search_degrees params) ∷ " deg" ∷ []))

  unfoldable pub stop : String → Io (Rig R W) String
  stop reason = pure (concat ("stop acknowledged: " ∷ reason ∷ []))

  -- `by_name.get(name)`, and the tool's `invoke` where there is one.
  unfoldable pub tool_call :
      {Args : Type 0} → Binding Args → String → Args → Option (Io (Rig R W) String)
  unfolding look turn forward search stop
  tool_call bind name args =
      if str_eq name "look"
      then some (lift (bind.look args) >>= look)
      else if str_eq name "turn"
      then some (lift (bind.turn args) >>= λ (direction, magnitude). turn direction magnitude)
      else if str_eq name "forward"
      then some (lift (bind.forward args) >>= forward)
      else if str_eq name "search"
      then some (lift (bind.search args) >>= λ none_. search)
      else if str_eq name "stop"
      then some (lift (bind.stop args) >>= stop)
      else none
