-- ===== src/Rover/Tests.antt =====
-- A quarter turn and a metre, commanded over the bridge and executed by the action server; and its
-- twists through the braking node.
use rover_mind.Prelude.{
  ℕ, ◌+◌, ◌*◌, String, ◌≡◌, refl, sym, ap, subst, ◌∙◌, inl, true, false, Option, none, some, List,
  [], ◌∷◌, arith, str_eq, All,
}
use rover_mind.Prelude.Int.{pos}
use rover_mind.Prelude.Io.{Io, Result, ok, err, exception}
use rover_mind.Prelude.Text.{Unicode}
use rover_mind.Float.{nought}
use rover_mind.Float.Fixed.{Fixed, num, fixed_float}
use rover_mind.Control.{
  ControllerParams, default_params, wrap_angle, proportional_turn, rotate_timeout_seconds,
  drive_timeout_seconds, displacement,
}
use rover_mind.Control.Loops.{rotate_to_heading, drive_distance}
use rover_mind.Server.{Node, Goal, Sample, execute_callback}
use rover_mind.Agent.{ExecuteResult}
use rover_mind.Agent.Executor.{ActionClient, Timeouts, default_timeouts, execute}
use rover_mind.Perception.Vision.{Camera}
use rover_mind.Bridge.Wire.{Json}
use rover_mind.Bridge.Values.{Value, null, float, no_members, Interpreter, get, set, members_of}
use rover_mind.Bridge.Server.{Devices, Server, handle}
use rover_mind.Bridge.Client.{Client, request, execute_command}
use rover_mind.Bridge.Link.{link}
use rover_mind.Bridge.Link.Frames.{IsCarried}
use rover_mind.Bridge.Link.Replies.{command_args}
use rover_mind.Bridge.Link.Refining.{IsCarriedCall}
use rover_mind.Aeb.{AebParams}
use rover_mind.Aeb
use rover_mind.Aeb.Node.{Twist, Event, cmd, tick, init, spin}
use rover_mind.Rover.{publish_goals}
use rover_mind.Rover.Motion.{IsBoundedTwist, OnlyPublished, wheels-IsBounded}
use rover_mind.Rover.Command.{CallbackRun, IsAchieved, ServesActions, execute_command-IsAchieved}

abbrev params : ControllerParams Fixed
params = default_params

abbrev whole : ℕ → Fixed
whole n = num (pos (n * 1_000_000_000))

abbrev idle : Node Fixed
idle = record { latest_yaw = none; latest_xy = none; active_goal = none }

abbrev sample : ℕ → Fixed → Option (Fixed × Fixed) → Sample Fixed
sample second yaw xy = record {
  yaw = some yaw;
  xy = xy;
  cancel_requested = false;
  now = whole second;
}

abbrev quarter_turn : Fixed
quarter_turn = num (pos 1_570_796_370)

abbrev samples : List (Sample Fixed)
samples =
    sample 0 nought none
    ∷ sample 1 nought none
    ∷ sample 2 quarter_turn none
    ∷ sample 3 quarter_turn (some (nought, nought))
    ∷ sample 4 quarter_turn (some (whole 1, nought))
    ∷ []

abbrev goal_of : Fixed × Fixed → Goal Fixed
goal_of (heading, distance) = record {
  handle = "g1";
  heading_degree = heading;
  distance_m = distance;
}

-- What the action server returns for a goal; the world counts the calls.
abbrev result_of : Goal Fixed → ExecuteResult
result_of goal = record {
  success = (execute_callback params idle goal samples).success;
  message = (execute_callback params idle goal samples).message;
}

abbrev counted : {A : Type 0} → A → Io ℕ A
counted a n = (ok a, n + 1)

abbrev actions : ActionClient Fixed ℕ (Fixed × Fixed) (Goal Fixed) (Goal Fixed)
actions = record {
  wait_for_server = λ timeout. counted true;
  send_goal_async = λ heading_deg distance_m. counted (heading_deg, distance_m);
  spin_sent = λ sent timeout. counted (some (some (goal_of sent)));
  is_accepted = λ handle. true;
  get_result_async = λ handle. counted handle;
  spin_result = λ pending timeout. counted (some (some (result_of pending)));
}

abbrev timeouts : Timeouts Fixed
timeouts = default_timeouts

abbrev tables : Unicode
tables = record { lower = λ text. text; is_word = λ c. true; repr = λ text. text }

abbrev python : Interpreter Fixed
python = record {
  str = λ v. "{...}";
  repr = λ v. "{...}";
  parse_float = λ t. none;
  binding_error = λ name args. "unexpected keyword argument";
  unhashable = λ v. "unhashable type";
  no_get = λ v. "no attribute 'get'";
  dict_of = λ v. err (exception "TypeError" "not iterable");
  is_os_error = λ kind. str_eq kind "BrokenPipeError";
}

abbrev clock : ℕ → Fixed
clock n = num (pos n)

abbrev camera : Camera Fixed ℕ String
camera = record {
  capture = counted "frame";
  ask = λ frame question. counted "no";
  point = λ frame target. counted none;
  depth = none;
}

abbrev on_floats : Value Fixed → Value Fixed → Io ℕ ExecuteResult
on_floats (float heading_deg) (float distance_m) = execute actions timeouts heading_deg distance_m
on_floats _ _ = λ n. (err (exception "TypeError" "must be real number"), n)

abbrev devices : Devices Fixed ℕ String
devices = record {
  build_executor = counted tt;
  execute = on_floats;
  build_moondream = counted tt;
  camera = camera;
}

abbrev server : Server Fixed ℕ
server = record {
  world = 0;
  ticks = 0;
  has_executor = true;
  has_moondream = true;
  pending_timing = no_members;
}

abbrev client : Client Fixed (Server Fixed ℕ)
client = record { connected = true; next_id = 1; ticks = 0; metrics = []; link = server }

abbrev drive_request : Value Fixed
drive_request = request python 1 "execute_command" (command_args python (whole 90) (whole 1))

abbrev reply : Value Fixed
reply = elim (handle tables python clock devices drive_request server).0 [ ok v ↦ v | err e ↦ null ]

-- The empty text stands for the request, any other for its reply.
abbrev written : Value Fixed → List ℕ
unfolding get
written v = elim (members_of v) [
  | none ↦ 1 ∷ []
  | some o ↦ elim (get "method" o) [ none ↦ 1 ∷ [] | some method ↦ [] ]
]

abbrev read_back : List ℕ → Result (Value Fixed)
read_back [] = ok drive_request
read_back (b ∷ bytes) = ok reply

abbrev json : Json (Value Fixed)
json = record { dumps = λ v. ok (written v); loads = read_back }

ok-inj : {A : Type 0} (v w : A) → ok v ≡ ok w → v ≡ w
ok-inj v w e = cc

-- The action server accepts on an idle node.
abbrev execution : Goal Fixed → CallbackRun Fixed
execution goal = record { node = idle; goal = goal; samples = samples }

actions-ServesActions : ServesActions params actions timeouts execution
actions-ServesActions heading_deg distance_m result w end handle
      (sent, got, held, accepted, (pending, asked, came)) =
    let is_sent : (heading_deg, distance_m) ≡ sent = cc in
    let is_handle : goal_of sent ≡ handle = cc in
    let is_pending : handle ≡ pending = cc in
    let is_result : result_of pending ≡ result = cc in
    let is_goal : handle ≡ goal_of (heading_deg, distance_m) =
      sym (ap goal_of is_sent ∙ is_handle) in
    (
      ap (λ (g : Goal Fixed). g.heading_degree) is_goal,
      ap (λ (g : Goal Fixed). g.distance_m) is_goal,
      ap (λ (g : Goal Fixed). (result_of g).success) is_pending
          ∙ ap (λ (r : ExecuteResult). r.success) is_result,
    )

replied : (handle tables python clock devices drive_request server).0 ≡ ok reply
unfolding handle execute fixed_float
replied = refl

carried : IsCarriedCall python json tables clock devices drive_request server
unfolding get set handle execute fixed_float
carried = (
  ([], refl, refl, omega arith),
  λ answer e.
      subst (IsCarried json) (ok-inj reply answer (sym replied ∙ e))
        (1 ∷ [], refl, refl, omega arith),
)

abbrev done : ExecuteResult
done = result_of (goal_of (whole 90, whole 1))

returns :
    (execute_command python clock true
      (link json tables python clock devices)
      (whole 90)
      (whole 1)
      client).0
    ≡ ok done
unfolding execute_command link fixed_float set execute
returns = refl

succeeds : done.success ≡ true
unfolding execute_callback rotate_to_heading drive_distance wrap_angle proportional_turn
    rotate_timeout_seconds drive_timeout_seconds displacement fixed_float
succeeds = refl

execute_command-IsAchieved_example :
    let (there, started) = actions.wait_for_server timeouts.server_timeout_s 0 in
    (there ≡ ok true)
    × IsAchieved params actions timeouts execution
        (whole 90)
        (whole 1)
        done
        started
        (execute_command python clock true
          (link json tables python clock devices)
          (whole 90)
          (whole 1)
          client).1.link.world
execute_command-IsAchieved_example =
    execute_command-IsAchieved params json tables python clock clock devices true actions timeouts
      execution client (whole 90) (whole 1) done refl refl carried
      (λ heading_deg distance_m w. refl) actions-ServesActions returns succeeds

-- The braking node gets one of the goal's twists, and later ticks.
abbrev published : List (Fixed × Fixed)
published = publish_goals params idle ((goal_of (whole 90, whole 1), samples) ∷ [])

abbrev first_twist : Fixed × Fixed
first_twist = elim published [ [] ↦ (nought, nought) | v ∷ vs ↦ v ]

abbrev turn_command : Twist Fixed
turn_command = record { linear_x = first_twist.0; angular_z = first_twist.1 }

abbrev events : List (Event Fixed × Fixed)
events = (tick, whole 1) ∷ (cmd turn_command, whole 1) ∷ (tick, whole 1) ∷ []

events-OnlyPublished : OnlyPublished params Aeb.default_params published events
unfolding publish_goals execute_callback rotate_to_heading drive_distance wrap_angle
    proportional_turn rotate_timeout_seconds drive_timeout_seconds displacement fixed_float
events-OnlyPublished = (inl (refl, refl), tt)

wheels-IsBounded_example :
    All (IsBoundedTwist params Aeb.default_params) (spin Aeb.default_params init events).1
unfolding fixed_float
wheels-IsBounded_example =
    wheels-IsBounded params Aeb.default_params refl idle
      ((goal_of (whole 90, whole 1), samples) ∷ []) events events-OnlyPublished
