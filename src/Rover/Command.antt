-- ===== src/Rover/Command.antt =====
-- A command of the agent from one end to the other: execute_command of bridge/client.py, the bridge
-- server, CommandExecutor.execute of agent/command_executor.py, and _execute_callback of
-- safety_controller_layer/safety_controller_node.py.
use rover_mind.Prelude.{◌≡◌, sym, ap, subst, ◌∙◌, inl, inr, Bool, true, some, List, map, ℕ}
use rover_mind.Prelude.Io.{Result, ok, err}
use rover_mind.Prelude.Text.{Unicode}
use rover_mind.Float.{Float}
use rover_mind.Control.{ControllerParams}
use rover_mind.Control.Loops.{rotate_to_heading}
use rover_mind.Control.Loops.Success.{Turned, Drove}
use rover_mind.Server.{Node, Goal, Sample, tick_of, execute_callback}
use rover_mind.Server.Goals.{execute_callback_success}
use rover_mind.Agent.{ExecuteResult}
use rover_mind.Agent.Executor.{ActionClient, Timeouts, execute}
use rover_mind.Agent.Executor.Delivery.{Completes, Delivers, execute-Delivers}
use rover_mind.Bridge.Wire.{Json}
use rover_mind.Bridge.Values.{Value, float, Interpreter}
use rover_mind.Bridge.Server.{Devices, Server}
use rover_mind.Bridge.Client.{Client, request, execute_command}
use rover_mind.Bridge.Link.{link}
use rover_mind.Bridge.Link.Replies.{command_args}
use rover_mind.Bridge.Link.Refining.{IsCarriedCall, execute_over_bridge, execute_command-refines}

-- A run of the action server's callback: the node it finds, its goal, and what the sensors read.
pub record CallbackRun (R : Type 0) : Type 0 where
  pub node : Node R
  pub goal : Goal R
  pub samples : List (Sample R)

module _ {R : Type 0} ⦃f : Float R⦄ (p : ControllerParams R) where
  open f use {radians}

  -- The samples show the commanded turn made, and the commanded distance driven after it.
  abbrev pub IsShown : R → R → Goal R → List (Sample R) → Type 0
  IsShown heading_deg distance_m goal samples =
      let ts = map (tick_of (some goal.handle)) samples in
      Turned p (radians heading_deg) ts
      × Drove distance_m (rotate_to_heading p (radians heading_deg) ts).rest

  -- What the callback ran for each goal handle.
  module _ {Handle : Type 0} (execution : Handle → CallbackRun R) where
    abbrev callback_success : Handle → Bool
    callback_success handle =
        let run = execution handle in (execute_callback p run.node run.goal run.samples).success

    -- The handle is of a goal of the two numbers, and the result is that of its callback.
    abbrev pub IsServed : R → R → ExecuteResult → Handle → Type 0
    IsServed heading_deg distance_m result handle =
        ((execution handle).goal.heading_degree ≡ heading_deg)
        × ((execution handle).goal.distance_m ≡ distance_m)
        × (callback_success handle ≡ result.success)

    abbrev pub IsShownFor : R → R → Handle → Type 0
    IsShownFor heading_deg distance_m handle =
        IsShown heading_deg distance_m (execution handle).goal (execution handle).samples

    served-IsShown :
        (heading_deg distance_m : R) (result : ExecuteResult) (handle : Handle)
        → IsServed heading_deg distance_m result handle
        → result.success ≡ true
        → IsShownFor heading_deg distance_m handle
    served-IsShown heading_deg distance_m result handle (eh, ed, es) succeeded =
        let run = execution handle in
        let (status, shows) = execute_callback_success p run.node run.goal run.samples in
        let (free, turned, drove) = shows (es ∙ succeeded) in
        subst (λ (q : R × R). IsShown q.0 q.1 run.goal run.samples) (λ i. (eh i, ed i))
          (turned, drove)

  -- What the client of the bridge returns, its server returned.
  returned_over_bridge :
      (py : Interpreter R) (direct : Result ExecuteResult) (x : ExecuteResult)
      → execute_over_bridge py direct ≡ ok x
      → direct ≡ ok x
  returned_over_bridge py (ok y) x e = e
  returned_over_bridge py (err y) x e = absurd (cc)

  module _ {W Sent Handle Pending : Type 0} (actions : ActionClient R W Sent Handle Pending)
      (timeouts : Timeouts R) where
    -- From the world on, the goal of the two numbers is sent, is accepted under the handle, and the
    -- handle's future comes to the result.
    abbrev pub IsDelivered : R → R → ExecuteResult → W → W → Handle → Type 0
    IsDelivered heading_deg distance_m result w end handle =
        let (got, after) = actions.send_goal_async heading_deg distance_m w in
        (sent : Sent) × (got ≡ ok sent)
        × ((actions.spin_sent sent timeouts.server_timeout_s after).0 ≡ ok (some (some handle)))
        × (actions.is_accepted handle ≡ true)
        × Completes actions timeouts handle result
            (actions.spin_sent sent timeouts.server_timeout_s after).1 end

    -- The action protocol: the result that comes for the handle of a goal which was sent and accepted
    -- is the one that the action server's callback returned for that handle.
    abbrev pub ServesActions : (Handle → CallbackRun R) → Type 0
    ServesActions execution =
        (heading_deg distance_m : R) (result : ExecuteResult) (w end : W) (handle : Handle)
        → IsDelivered heading_deg distance_m result w end handle
        → IsServed execution heading_deg distance_m result handle

    -- The goal was delivered, and the samples of its handle show the command.
    abbrev pub IsAchieved : (Handle → CallbackRun R) → R → R → ExecuteResult → W → W → Type 0
    IsAchieved execution heading_deg distance_m result w end =
        (handle : Handle) × IsDelivered heading_deg distance_m result w end handle
        × IsShownFor execution heading_deg distance_m handle

    delivered-IsAchieved :
        (execution : Handle → CallbackRun R)
        → ServesActions execution
        → (heading_deg distance_m : R) (result : ExecuteResult) (w end : W)
        → Delivers actions timeouts heading_deg distance_m result w end
        → result.success ≡ true
        → IsAchieved execution heading_deg distance_m result w end
    delivered-IsAchieved execution serves heading_deg distance_m result w end
          (sent, got, (handle, held, accepted, completes)) succeeded =
        let delivered : IsDelivered heading_deg distance_m result w end handle =
          (sent, got, held, accepted, completes) in
        (
          handle,
          delivered,
          served-IsShown execution heading_deg distance_m result handle
              (serves heading_deg distance_m result w end handle delivered) succeeded,
        )

    -- The bridge server's executor is the `CommandExecutor`.
    abbrev pub ExecutesBy : {Image : Type 0} → Devices R W Image → Type 0
    ExecutesBy devices =
        (heading_deg distance_m : R) (w : W)
        → devices.execute (float heading_deg) (float distance_m) w
          ≡ execute actions timeouts heading_deg distance_m w

  module _ {W Image Sent Handle Pending : Type 0} (json : Json (Value R)) (u : Unicode)
      (py : Interpreter R) (clock client_clock : ℕ → R) (devices : Devices R W Image)
      (has_sink : Bool) (actions : ActionClient R W Sent Handle Pending)
      (timeouts : Timeouts R) where
    -- Where `execute_command` of the client reports a success, the run behind it has sent the goal of
    -- the two numbers from the world in which the action server was there, has had it accepted under a
    -- handle, and has got that handle's result in the world in which the client is left; and what the
    -- sensors read while that handle's callback ran shows the commanded turn made within the tolerance
    -- and then the commanded distance driven. This is given an open connection that carries the
    -- request and the reply, an executor that is there and is the `CommandExecutor`, and the action
    -- protocol.
    pub execute_command-IsAchieved :
        (execution : Handle → CallbackRun R) (c : Client R (Server R W))
        (heading_deg distance_m : R) (x : ExecuteResult)
        → c.connected ≡ true
        → c.link.has_executor ≡ true
        → IsCarriedCall py json u clock devices
            (request py c.next_id "execute_command" (command_args py heading_deg distance_m))
            c.link
        → ExecutesBy actions timeouts devices
        → ServesActions actions timeouts execution
        → (execute_command py client_clock has_sink
            (link json u py clock devices)
            heading_deg
            distance_m
            c).0
          ≡ ok x
        → x.success ≡ true
        → let (there, started) = actions.wait_for_server timeouts.server_timeout_s c.link.world in
          (there ≡ ok true)
          × IsAchieved actions timeouts execution heading_deg distance_m x started
              (execute_command py client_clock has_sink
                (link json u py clock devices)
                heading_deg
                distance_m
                c).1.link.world
    execute_command-IsAchieved execution c heading_deg distance_m x opened built carried by serves
          returned succeeded =
        elim (execute_command-refines py json u clock client_clock devices has_sink c opened
          heading_deg distance_m built carried) [
            | inl (accepted, result, world) ↦
                let direct =
                  returned_over_bridge py
                    (devices.execute (float heading_deg) (float distance_m) c.link.world).0 x
                    (sym result ∙ returned) in
                let same = by heading_deg distance_m c.link.world in
                let executed = ap (λ (r : Result ExecuteResult × W). r.0) (sym same) ∙ direct in
                let (checked, waited, delivered) =
                  execute-Delivers actions timeouts heading_deg distance_m c.link.world x executed
                    succeeded in
                let started = (actions.wait_for_server timeouts.server_timeout_s c.link.world).1 in
                (
                  waited,
                  subst (IsAchieved actions timeouts execution heading_deg distance_m x started)
                      (sym (ap (λ (r : Result ExecuteResult × W). r.1) same) ∙ sym world)
                      (delivered-IsAchieved actions timeouts execution serves heading_deg distance_m
                        x started _ delivered succeeded),
                )
            | inr (e, refused, same) ↦
                let wrong =
                  sym (ap (λ (r : Result ExecuteResult × Client R (Server R W)). r.0) same)
                  ∙ returned in
                absurd (cc)
          ]
