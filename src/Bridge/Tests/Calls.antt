-- ===== src/Bridge/Tests/Calls.antt =====
-- A client and a server on small devices, joined by a JSON that knows one request and its reply.
use mathlib.Core.Bool.{xor}
use rover_mind.Prelude.{
  ℕ, ◌+◌, String, ◌≡◌, refl, sym, subst, ◌∙◌, length, ◌⊎◌, true, false, none, some, List, [], ◌∷◌,
  arith, str_eq,
}
use rover_mind.Prelude.Int.{pos}
use rover_mind.Prelude.Io.{Exception, Result, ok, err, ok-inj, exception, pure, raise}
use rover_mind.Prelude.Text.{Unicode, starts_with}
use rover_mind.Prelude.Words.{has_word}
use rover_mind.Float.Fixed.{Fixed, num, fixed_float}
use rover_mind.Agent.{validate_command}
use rover_mind.Perception.Vision
use rover_mind.Perception.Vision.{Camera}
use rover_mind.Bridge.Wire.{Json}
use rover_mind.Bridge.Values.{
  Value, null, int, float, text, object, no_members, member, Interpreter, get, set, members_of,
}
use rover_mind.Bridge.Timing.{Timed, timed_camera}
use rover_mind.Bridge.Timing.Transparent.{Agrees, capture_and_analyze-Agrees}
use rover_mind.Bridge.Server.{Devices, Server, handle}
use rover_mind.Bridge.Connection.{Incoming, serve_one_connection}
use rover_mind.Bridge.Connection.Order.{AnswersInOrder, serve_one_connection-AnswersInOrder}
use rover_mind.Bridge.Client.{Client, request, execute_command, capture_and_analyze}
use rover_mind.Bridge.Link.{link}
use rover_mind.Bridge.Link.Frames.{IsCarried}
use rover_mind.Bridge.Link.Replies.{command_args}
use rover_mind.Bridge.Link.Refining.{
  IsCarriedCall, execute_over_bridge, look_over_bridge, execute_command-refines,
  capture_and_analyze-refines,
}

abbrev pub tables : Unicode
tables = record { lower = λ text. text; is_word = λ c. true; repr = λ text. text }

abbrev pub python : Interpreter Fixed
python = record {
  str = λ v. "{...}";
  repr = λ v. "{...}";
  parse_float = λ t. none;
  binding_error = λ name args. "unexpected keyword argument";
  unhashable = λ v. "unhashable type";
  no_get = λ v. "no attribute 'get'";
  dict_of = λ v. err (exception "TypeError" "not iterable");
  is_os_error = λ kind. str_eq kind "BrokenPipeError";
}

abbrev pub clock : ℕ → Fixed
clock n = num (pos n)

abbrev half : Fixed
half = num (pos 500_000_000)

-- The world counts the commands and the questions.
abbrev camera : Camera Fixed ℕ String
camera = record {
  capture = pure "frame";
  ask = λ frame question asked. (ok "yes, left and near", asked + 1);
  point = λ frame target. pure (some (half, half));
  depth = none;
}

abbrev pub devices : Devices Fixed ℕ String
devices = record {
  build_executor = pure tt;
  execute =
      λ heading_degree distance_m n. (ok (record { success = true; message = "done" }), n + 1);
  build_moondream = pure tt;
  camera = camera;
}

abbrev pub server : Server Fixed ℕ
server = record {
  world = 0;
  ticks = 0;
  has_executor = true;
  has_moondream = true;
  pending_timing = no_members;
}

abbrev client : Client Fixed (Server Fixed ℕ)
client = record { connected = true; next_id = 1; ticks = 0; metrics = []; link = server }

abbrev drive_request : Value Fixed
drive_request = request python 1 "execute_command" (command_args python half half)

abbrev look_request : Value Fixed
look_request = request python 1 "capture_and_analyze" (member "target" (text "cup") no_members)

abbrev reply_to : Value Fixed → Value Fixed
unfolding handle
reply_to asked = elim (handle tables python clock devices asked server).0 [
  | ok reply ↦ reply
  | err e ↦ null
]

-- The empty text stands for the request, any other for its reply.
abbrev written : Value Fixed → List ℕ
unfolding get
written v = elim (members_of v) [
  | none ↦ 1 ∷ []
  | some o ↦ elim (get "method" o) [ none ↦ 1 ∷ [] | some method ↦ [] ]
]

abbrev read_back : Value Fixed → Value Fixed → List ℕ → Result (Value Fixed)
read_back asked reply [] = ok asked
read_back asked reply (b ∷ bytes) = ok reply

abbrev json_for : Value Fixed → Json (Value Fixed)
json_for asked = record { dumps = λ v. ok (written v); loads = read_back asked (reply_to asked) }

drive_replied :
    (handle tables python clock devices drive_request server).0 ≡ ok (reply_to drive_request)
unfolding handle
drive_replied = refl

look_replied :
    (handle tables python clock devices look_request server).0 ≡ ok (reply_to look_request)
unfolding handle has_word starts_with xor
look_replied = refl

drive_carried :
    IsCarriedCall python (json_for drive_request) tables clock devices drive_request server
unfolding get set handle
drive_carried = (
  ([], refl, refl, omega arith),
  λ reply e.
      subst (IsCarried (json_for drive_request))
        (ok-inj (reply_to drive_request) reply (sym drive_replied ∙ e))
        (1 ∷ [], refl, refl, omega arith),
)

look_carried : IsCarriedCall python (json_for look_request) tables clock devices look_request server
unfolding get set handle has_word starts_with xor
look_carried = (
  ([], refl, refl, omega arith),
  λ reply e.
      subst (IsCarried (json_for look_request))
        (ok-inj (reply_to look_request) reply (sym look_replied ∙ e))
        (1 ∷ [], refl, refl, omega arith),
)

execute_command-refines_example :
    let direct = devices.execute (float half) (float half) 0 in
    let r =
      execute_command python clock true
        (link (json_for drive_request) tables python clock devices)
        half
        half
        client in
    ((validate_command half half ≡ ok tt)
      × (r.0 ≡ execute_over_bridge python direct.0)
      × (r.1.link.world ≡ direct.1))
    ⊎ ((e : Exception) × (validate_command half half ≡ err e) × (r ≡ (err e, client)))
execute_command-refines_example =
    execute_command-refines python (json_for drive_request) tables clock clock devices true client
      refl half half refl drive_carried

capture_and_analyze-refines_example :
    let direct = Vision.capture_and_analyze tables camera "cup" 0 in
    let r =
      capture_and_analyze python clock true
        (link (json_for look_request) tables python clock devices)
        "cup"
        client in
    (r.0 ≡ look_over_bridge python direct.0) × (r.1.link.world ≡ direct.1)
capture_and_analyze-refines_example =
    capture_and_analyze-refines python (json_for look_request) tables clock clock devices true
      client refl "cup" refl look_carried

abbrev begun : Timed Fixed ℕ
begun = record { world = 0; ticks = 0; calls = [] }

capture_and_analyze-Agrees_example :
    Agrees
      (Vision.capture_and_analyze tables (timed_camera tables clock camera) "cup" begun)
      (Vision.capture_and_analyze tables camera "cup" 0)
capture_and_analyze-Agrees_example = capture_and_analyze-Agrees tables clock camera "cup" begun

-- A request whose method is a dict.
abbrev odd_request : Value Fixed
odd_request = object (member "id" (int (pos 1)) (member "method" (object no_members) no_members))

-- A handler that is interrupted leaves its request without a reply.
abbrev interrupting : Devices Fixed ℕ String
interrupting = record devices {
  execute = λ heading_degree distance_m. raise (exception "KeyboardInterrupt" "");
}

not_answered :
    (handle tables python clock interrupting drive_request server).0
    ≡ err (exception "KeyboardInterrupt" "")
unfolding handle
not_answered = refl

abbrev arrives : Value Fixed → Incoming Fixed
arrives v = record { shutdown = false; request = ok v; write = ok tt }

-- Two good requests and the odd one.
abbrev pub rounds : List (Incoming Fixed)
rounds = arrives drive_request ∷ arrives null ∷ arrives odd_request ∷ []

serve_one_connection-AnswersInOrder_example :
    let served = serve_one_connection tables python clock devices rounds server in
    AnswersInOrder tables python clock devices served.ending rounds served.replies
serve_one_connection-AnswersInOrder_example =
    serve_one_connection-AnswersInOrder tables python clock devices rounds server

two_replies : length (serve_one_connection tables python clock devices rounds server).replies ≡ 2
unfolding serve_one_connection
two_replies = refl
