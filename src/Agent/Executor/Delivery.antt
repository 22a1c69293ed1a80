-- ===== src/Agent/Executor/Delivery.antt =====
-- What a success of the action client tells (CommandExecutor.execute of agent/command_executor.py).
use rover_mind.Prelude.{
  ◌≡◌, refl, sym, ap, subst, ◌∙◌, inl, inr, arith, Bool, true, false, Option, none, some,
  Bool-cases,
}
use rover_mind.Prelude.Io.{ok, lift, bind-returns, ◌>>=◌}
use rover_mind.Float.{Float}
use rover_mind.Agent.{ExecuteResult, validate_command}
use rover_mind.Agent.Executor.{
  ActionClient, Timeouts, unwrapped, awaited, accepted_or, sent_goal, execute,
}

module _ {R : Type 0} ⦃f : Float R⦄ {W Sent Handle Pending : Type 0}
    (client : ActionClient R W Sent Handle Pending) (timeouts : Timeouts R) where
  open client use {
    wait_for_server, send_goal_async, spin_sent, is_accepted, get_result_async, spin_result,
  }
  open timeouts use {server_timeout_s, goal_timeout_s}

  -- From the world on, the handle's goal comes to the result within the goal's timeout.
  abbrev pub Completes : Handle → ExecuteResult → W → W → Type 0
  Completes handle result w end =
      (pending : Pending) × ((get_result_async handle w).0 ≡ ok pending)
      × ((spin_result pending goal_timeout_s (get_result_async handle w).1)
          ≡ (ok (some (some result)), end))

  -- From the world on, the goal of the two numbers is sent, is accepted in time, and comes to the
  -- result.
  abbrev pub Delivers : R → R → ExecuteResult → W → W → Type 0
  Delivers heading_deg distance_m result w end =
      (sent : Sent) × ((send_goal_async heading_deg distance_m w).0 ≡ ok sent)
      × ((handle : Handle) × ((spin_sent sent server_timeout_s
              (send_goal_async heading_deg distance_m w).1).0
            ≡ ok (some (some handle)))
          × (is_accepted handle ≡ true)
          × Completes handle result
              (spin_sent sent server_timeout_s (send_goal_async heading_deg distance_m w).1).1 end)

  unwrapped_success :
      (o : Option (Option ExecuteResult)) (w : W) (x : ExecuteResult)
      → (unwrapped client timeouts o w).0 ≡ ok x
      → x.success ≡ true
      → (o ≡ some (some x)) × ((unwrapped client timeouts o w).1 ≡ w)
  unfolding unwrapped
  unwrapped_success none w x e h = absurd (ground arith)
  unwrapped_success (some none) w x e h = absurd (ground arith)
  unwrapped_success (some (some y)) w x e h = (cc, refl)

  awaited-Completes :
      (handle : Handle) (w : W) (x : ExecuteResult)
      → (awaited client timeouts handle w).0 ≡ ok x
      → x.success ≡ true
      → Completes handle x w (awaited client timeouts handle w).1
  unfolding awaited
  awaited-Completes handle w x e h =
      let (pending, got, spun, left) =
        bind-returns (get_result_async handle)
          (λ future. spin_result future goal_timeout_s >>= unwrapped client timeouts) w x e in
      let (o, held, rest, left') =
        bind-returns (spin_result pending goal_timeout_s) (unwrapped client timeouts)
          (get_result_async handle w).1 x spun in
      let (is, same) = unwrapped_success o _ x rest h in
      (pending, got, λ i. ((held ∙ ap ok is) i, sym (left ∙ left' ∙ same) i))

  -- The future of the goal, in the world after its spin.
  accepted_or-Completes :
      (o : Option (Option Handle)) (w : W) (x : ExecuteResult)
      → (accepted_or client timeouts o w).0 ≡ ok x
      → x.success ≡ true
      → (handle : Handle) × (o ≡ some (some handle))
        × (is_accepted handle ≡ true)
        × Completes handle x w (accepted_or client timeouts o w).1
  unfolding accepted_or
  accepted_or-Completes none w x e h = absurd (ground arith)
  accepted_or-Completes (some none) w x e h = absurd (ground arith)
  accepted_or-Completes (some (some handle)) w x e h = elim (Bool-cases (is_accepted handle)) [
    | inl yes_it ↦
        (handle, refl, yes_it, rw yes_it (awaited-Completes handle w x (rw yes_it at e) h))
    | inr not_it ↦ absurd (ground arith)
  ]

  sent_goal-Delivers :
      (heading_deg distance_m : R) (available : Bool) (w : W) (x : ExecuteResult)
      → (sent_goal client timeouts heading_deg distance_m available w).0 ≡ ok x
      → x.success ≡ true
      → (available ≡ true)
        × Delivers heading_deg distance_m x w
            (sent_goal client timeouts heading_deg distance_m available w).1
  unfolding sent_goal
  sent_goal-Delivers heading_deg distance_m false w x e h = absurd (cc)
  sent_goal-Delivers heading_deg distance_m true w x e h =
      let (sent, got, spun, left) =
        bind-returns (send_goal_async heading_deg distance_m)
          (λ future. spin_sent future server_timeout_s >>= accepted_or client timeouts) w x e in
      let (o, held, rest, left') =
        bind-returns (spin_sent sent server_timeout_s) (accepted_or client timeouts)
          (send_goal_async heading_deg distance_m w).1 x spun in
      let (handle, is, taken, completes) = accepted_or-Completes o _ x rest h in
      (
        refl,
        (
          sent,
          got,
          (
            handle,
            held ∙ ap ok is,
            taken,
            subst (Completes handle x _) (sym (left ∙ left')) completes,
          ),
        ),
      )

  -- A success that `execute` returns is the rover's own result, message and all: the command passed
  -- the local check, the server was there, the goal of its two numbers was accepted within the server's
  -- timeout, and its result came within the goal's timeout.
  pub execute-Delivers :
      (heading_deg distance_m : R) (w : W) (x : ExecuteResult)
      → (execute client timeouts heading_deg distance_m w).0 ≡ ok x
      → x.success ≡ true
      → (validate_command heading_deg distance_m ≡ ok tt)
        × ((wait_for_server server_timeout_s w).0 ≡ ok true)
        × Delivers heading_deg distance_m x
            (wait_for_server server_timeout_s w).1
            (execute client timeouts heading_deg distance_m w).1
  unfolding execute
  execute-Delivers heading_deg distance_m w x e h =
      let (checked, passed, waited, left) =
        bind-returns (lift (validate_command heading_deg distance_m))
          (λ ok_to_send.
            wait_for_server server_timeout_s >>= sent_goal client timeouts heading_deg distance_m)
          w x e in
      let (available, there, rest, left') =
        bind-returns (wait_for_server server_timeout_s)
          (sent_goal client timeouts heading_deg distance_m) w x waited in
      let (is, delivers) = sent_goal-Delivers heading_deg distance_m available _ x rest h in
      (
        passed,
        there ∙ ap ok is,
        subst (Delivers heading_deg distance_m x _) (sym (left ∙ left')) delivers,
      )
