-- ===== src/Agent/Executor/Tests.antt =====
-- The action client on servers that answer, and that fall silent.
use rover_mind.Prelude.{◌≡◌, refl, Bool, true, false, none, some, ℕ, ◌+◌, ap, ltb, if◌then◌else◌}
use rover_mind.Prelude.Io.{Io, Result, ok, err, exception}
use rover_mind.Float.Fixed.{Fixed, fixed_float}
use rover_mind.Agent.{ExecuteResult, validate_command}
use rover_mind.Agent.Executor.{
  ActionClient, Timeouts, Rclpy, construct_executor, default_timeouts, execute, execute_command,
  close,
}
use rover_mind.Agent.Executor.Delivery.{Delivers, execute-Delivers}

abbrev done : ExecuteResult
done = record { success = true; message = "completed" }

-- The world counts the calls; the server answers or does not.
abbrev counted : {A : Type 0} → A → Io ℕ A
counted a n = (ok a, n + 1)

abbrev serving : Bool → ActionClient Fixed ℕ ℕ Bool ℕ
serving answers = record {
  wait_for_server = λ timeout. counted true;
  send_goal_async = λ heading_deg distance_m. counted 7;
  spin_sent = λ sent timeout. counted (some (some true));
  is_accepted = λ handle. handle;
  get_result_async = λ handle. counted 8;
  spin_result = λ pending timeout. counted (if answers then some (some done) else none);
}

abbrev one_metre : Fixed
one_metre = fixed_float.lit 1 0

abbrev timeouts : Timeouts Fixed
timeouts = default_timeouts

five_calls : execute (serving true) timeouts one_metre one_metre 0 ≡ (ok done, 5)
unfolding execute fixed_float
five_calls = refl

abbrev succeeded : Result ExecuteResult → Bool
succeeded (ok r) = r.success
succeeded (err e) = false

silent_fails : succeeded (execute (serving false) timeouts one_metre one_metre 0).0 ≡ false
unfolding execute fixed_float
silent_fails = refl

-- The singleton is built once.
built_once :
    (execute_command (serving true) timeouts (counted tt) one_metre one_metre (false, 0)).1
    ≡ (true, 6)
unfolding execute_command fixed_float
built_once = refl

execute-Delivers_example :
    (validate_command one_metre one_metre ≡ ok tt)
    × (((serving true).wait_for_server timeouts.server_timeout_s 0).0 ≡ ok true)
    × Delivers
        (serving true)
        timeouts
        one_metre
        one_metre
        done
        1
        (execute (serving true) timeouts one_metre one_metre 0).1
execute-Delivers_example =
    execute-Delivers (serving true) timeouts one_metre one_metre 0 done
      (ap (λ (r : Result ExecuteResult × ℕ). r.0) five_calls) refl

-- A node that cannot be destroyed does not keep rclpy from being shut down.
closes :
    close (serving true) timeouts true (λ n. (err (exception "RuntimeError" ""), n)) (counted tt) 0
    ≡ (ok tt, 1)
unfolding close
closes = refl

-- rclpy is up after its init.
abbrev starting : Rclpy ℕ
starting = record {
  is_available = true;
  is_up = λ n. ltb 0 n;
  init = counted tt;
  create_node = counted tt;
  create_client = counted tt;
}

owns_its_node : construct_executor starting false 0 ≡ (ok true, 3)
unfolding construct_executor
owns_its_node = refl

borrows_a_node : construct_executor starting true 1 ≡ (ok false, 2)
unfolding construct_executor
borrows_a_node = refl
