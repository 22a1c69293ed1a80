-- ===== src/Server.antt =====
-- The action server around the controller (safety_controller_layer/safety_controller_node.py): its
-- sensor callbacks, its readings, and the execution of one goal.
pub mod Goals
pub mod Main
pub mod Interleaving
mod Tests
use rover_mind.Prelude.{
  String, ◌≡◌, Bool, true, false, ◌&&◌, Option, none, some, List, [], ◌∷◌, ◌++◌, map, if◌then◌else◌,
  concat,
}
use rover_mind.Float.{Float, nought}
use rover_mind.Control.{ControllerParams}
use rover_mind.Control.Loops.{
  Reading, value, failed, Tick, ControlError, cancelled, timed_out, sensor, zero_division, Outcome,
  waiting, returned, raised, Run, halt, rotate_to_heading, drive_distance,
}

-- The fields of the node; a goal handle is known by its name.
pub record Node (R : Type 0) : Type 0 where
  pub latest_yaw : Option R
  pub latest_xy : Option (R × R)
  pub active_goal : Option String

pub record Quaternion (R : Type 0) : Type 0 where
  pub x : R
  pub y : R
  pub z : R
  pub w : R

pub record Goal (R : Type 0) : Type 0 where
  pub handle : String
  pub heading_degree : R
  pub distance_m : R

-- What the other threads have left for one round of a control loop: the cached sensor values, the
-- cancel flag of the goal handle, and the clock.
pub record Sample (R : Type 0) : Type 0 where
  pub yaw : Option R
  pub xy : Option (R × R)
  pub cancel_requested : Bool
  pub now : R

-- The terminal calls on a goal handle. `crashed` is an exception that the callback does not catch,
-- `executing` a script that ends before the goal does.
pub data GoalStatus : Type 0 where
  succeeded aborted canceled crashed executing : GoalStatus

pub record Execution (R : Type 0) : Type 0 where
  pub node : Node R
  pub feedback : List String
  pub published : List (R × R)
  pub status : GoalStatus
  pub success : Bool
  pub message : String

module _ {R : Type 0} ⦃f : Float R⦄ where
  open f use {lt, lit, add, sub, mul, atan2, radians}

  pub quaternion_to_yaw : Quaternion R → R
  quaternion_to_yaw q =
      let siny_cosp = mul (lit 20 1) (add (mul q.w q.z) (mul q.x q.y)) in
      let cosy_cosp = sub (lit 10 1) (mul (lit 20 1) (add (mul q.y q.y) (mul q.z q.z))) in
      atan2 siny_cosp cosy_cosp

  pub on_imu : Node R → Quaternion R → Node R
  on_imu n q = record n { latest_yaw = some (quaternion_to_yaw q) }

  pub on_odom : Node R → R × R → Node R
  on_odom n p = record n { latest_xy = some p }

-- `_is_cancel_requested`.
is_cancel_requested : Option String → Bool → Bool
is_cancel_requested none flag = false
is_cancel_requested (some handle) flag = flag

module _ {R : Type 0} where
  -- `_read_yaw` and `_read_position`.
  read_yaw : Option R → Reading R
  read_yaw none = failed "No IMU message received on /imu yet"
  read_yaw (some yaw) = value yaw

  read_position : Option (R × R) → Reading (R × R)
  read_position none = failed "No odometry message received on /odom yet"
  read_position (some xy) = value xy

  -- The callables that the node hands to its controller, while `active` is the active goal.
  pub tick_of : Option String → Sample R → Tick R
  unfolding read_yaw read_position is_cancel_requested
  tick_of active s = record {
    yaw = read_yaw s.yaw;
    position = read_position s.xy;
    abort = is_cancel_requested active s.cancel_requested;
    now = s.now;
  }

module _ {R : Type 0} ⦃f : Float R⦄ where
  open f use {lt, radians}

  abbrev refuse : Node R → String → Execution R
  refuse n text = record {
    node = n;
    feedback = [];
    published = [];
    status = aborted;
    success = false;
    message = text;
  }

  -- The `try` block: both phases, with the feedback sent before each.
  phases : ControllerParams R → Goal R → List (Tick R) → List String × Run R
  phases p goal ts =
      let turn = rotate_to_heading p (radians goal.heading_degree) ts in
      elim turn.outcome [
        | returned ↦
            let drive = drive_distance p goal.distance_m turn.rest in
            (
              "rotating" ∷ "driving" ∷ [],
              record drive { published = turn.published ++ drive.published },
            )
        | _ ↦ ("rotating" ∷ [], turn)
      ]

  -- The `except` clauses, the `finally`, and the success path; `n` is the node after `finally`.
  settle : Node R → Goal R → List String → List (R × R) → Outcome → Execution R
  settle n goal feedback published returned = record {
    node = n;
    feedback = feedback;
    published = published ++ halt ∷ [];
    status = succeeded;
    success = true;
    message = concat (
        "completed: turned "
        ∷ f.fixed 1 goal.heading_degree
        ∷ " deg, drove "
        ∷ f.fixed 2 goal.distance_m
        ∷ " m"
        ∷ []);
  }
  settle n goal feedback published (raised (cancelled text)) = record {
    node = n;
    feedback = feedback;
    published = published ++ halt ∷ [];
    status = canceled;
    success = false;
    message = concat ("canceled: " ∷ text ∷ []);
  }
  settle n goal feedback published (raised (timed_out text)) = record {
    node = n;
    feedback = feedback;
    published = published ++ halt ∷ [];
    status = aborted;
    success = false;
    message = concat ("aborted: " ∷ text ∷ []);
  }
  settle n goal feedback published (raised (sensor text)) = record {
    node = n;
    feedback = feedback;
    published = published ++ halt ∷ [];
    status = aborted;
    success = false;
    message = concat ("aborted: " ∷ text ∷ []);
  }
  settle n goal feedback published (raised zero_division) = record {
    node = n;
    feedback = feedback;
    published = published;
    status = crashed;
    success = false;
    message = "";
  }
  settle n goal feedback published waiting = record {
    node = record n { active_goal = some goal.handle };
    feedback = feedback;
    published = published;
    status = executing;
    success = false;
    message = "";
  }

  -- `_execute_callback`, over the samples that it meets.
  unfoldable pub execute_callback :
      ControllerParams R → Node R → Goal R → List (Sample R) → Execution R
  unfolding phases settle tick_of
  execute_callback p n goal samples =
      if lt goal.distance_m nought
      then refuse n
          (concat ("rejected: distance_m must be non-negative, got " ∷ f.repr goal.distance_m ∷ []))
      else elim n.active_goal [
        | some other ↦ refuse n "rejected: another goal is already executing"
        | none ↦
            let (feedback, run) = phases p goal (map (tick_of (some goal.handle)) samples) in
            settle n goal feedback run.published run.outcome
      ]
