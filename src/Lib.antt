-- ===== src/Lib.antt =====
-- RoverMind: a rover that drives to a named object. A language-model agent on a laptop looks
-- through the rover's camera and answers with movement commands; on the rover an action server
-- turns each command into a turn and a drive, and an emergency brake stands between the server and
-- the wheels.
--
-- The parts and their files. Paths are from the repository's root.
--
-- * Control.antt and Control/Loops.antt model safety_controller_layer/control_math.py: the
--   arithmetic of headings and time budgets, and the closed loops of SafetyController
--   (rotate_to_heading, drive_distance, execute_command). The callables that the class is given
--   (get_yaw, get_position, now, should_abort, publish_twist, sleep) are a script of ticks, one
--   for each round of a loop; what is published is a list.
-- * Server.antt models safety_controller_layer/safety_controller_node.py: the cached sensor
--   values, and _execute_callback as a function of the samples that the other threads leave while
--   it runs. It uses the loops of Control by the ticks that the node makes of its samples.
--   Server/Interleaving.antt models the same callbacks of several goals at once, each by the steps
--   in which it touches the active goal, and Server/Main.antt the main function.
-- * Aeb.antt models safety_controller_layer/aeb_math.py: the braking state machine
--   (BrakeStateMachine.update), the forward range of a laser scan and the gate on a command.
--   Aeb/Node.antt models safety_controller_layer/aeb_node.py: its three callbacks as steps, and
--   spin as a sequence of them; Aeb/Node/Main.antt models its main function.
-- * Perception.antt models perception/scene_parsing.py: from the vision model's answers to an
--   observation. Perception/Depth.antt models perception/depth_math.py, and Perception/Vision.antt
--   capture_and_analyze of perception/vision_tool.py, Perception/Capture.antt the two captures
--   there. Perception/Moondream.antt models perception/moondream_client.py.
-- * Agent.antt models agent/params.py, agent/action_resolvers.py, agent/observation_formatter.py
--   and the local check of agent/command_executor.py; Agent/Executor.antt models the
--   CommandExecutor there; Agent/Config.antt models agent/config_loader.py and agent/llm.py;
--   Agent/Latency.antt models the collector of agent/latency.py, Agent/Latency/Summary.antt its
--   summary, Agent/Latency/Report.antt the text of its report and Agent/Latency/Dict.antt its
--   dict; Agent/Tools.antt models agent/tools.py; Agent/Target.antt models extract_target of
--   agent/state.py, Agent/Graph.antt the rest of agent/state.py, agent/nodes.py, agent/graph.py
--   and agent/prompts.py.
-- * Bridge/Wire.antt models the framing of bridge/wire.py, and Bridge/Dicts.antt the dict of an
--   observation there. Bridge/Values.antt has the values that cross the bridge. Bridge/Server.antt
--   models _handle and the handlers of bridge/bridge_server.py, Bridge/Server/Replies.antt their
--   replies, Bridge/Connection.antt its _serve_one_connection, Bridge/Serving.antt its
--   serve_forever and the rest, Bridge/Client.antt models the calls of bridge/client.py,
--   Bridge/Client/Opening.antt the life of its connection, Bridge/Client/Sink.antt its timings,
--   and Bridge/Timing.antt bridge/timing.py. Bridge/Link.antt joins the client and the server by a
--   stream in memory that loses nothing; it models no code, and is what a call over the bridge is
--   stated on.
-- * Rover.antt joins the parts: Rover/Motion.antt the twists of the action server with the braking
--   node, Rover/Command.antt a command from the bridge's client to the action server.
--   Rover/Run.antt models scripts/run_agent.py.
-- * Prelude.antt and its children hold what the parts share: the native numbers and integers,
--   lists, texts as code points with substring and whole-word search, and calls that have effects
--   and may raise. Float.antt is the interface of Python's floats.
--
-- How the program is represented.
--
-- * Floats are a parameter: a type with the operations of Python's float and the laws of IEEE-754
--   that hold with rounding, at NaN and at the infinities. No theorem assumes exact arithmetic.
--   Float/Fixed.antt is one instance, nine decimals with NaN and infinities, on which the tests
--   run; it is a sample and no claim about IEEE-754.
-- * Unicode tables (lower case, the word class of regular expressions, repr) are a parameter too.
-- * Exceptions are values: a call with effects is a function from a world to a result and the
--   world after it, so that effects before a raise are kept. What Python's except Exception does
--   not catch are KeyboardInterrupt and SystemExit.
-- * Loops run over their script of ticks, so that they end with it; a script that ends before the
--   loop does gives the outcome `waiting`. The theorems on the ends of the loops say which tick
--   ends them.
-- * The run of the agent's graph has a budget of node executions, the recursion limit of the graph
--   library. A budget of one and three for each round is enough, and the theorem on the end of a
--   run assumes no more.
-- * The loop that reads a given number of bytes off a stream has as many rounds as bytes, which
--   are enough since a round that goes on adds at least one.
-- * A clock is any sequence of readings, of which a state holds the number of those taken. What
--   the Python interpreter answers, such as str and repr of a value and the texts of its own
--   errors, is a parameter; an integer is converted to a float without overflow.
-- * The loop over one connection runs over what its rounds meet: the shutdown flag, what reading a
--   frame gives and what writing the reply does. The accept loop and the wait for a camera frame
--   run over such scripts too.
-- * The language model, the JSON library, rclpy, the YAML library, Python's statistics, the read
--   function of a stream, the argument binding of the tool library, the camera and the vision
--   model are parameters; the graph takes the extraction of the target as a function.
--
-- Not modelled: what the constructors of the nodes register with ROS, the loading of the vision
-- model and the patch of torch in perception/moondream_client.py, the parsing of command lines,
-- launch/rovermind.launch.py and the packaging. They only call libraries, or declare what those
-- do. The topics and the action protocol between the nodes are hypotheses of the theorems on the
-- rover as a whole.
pub mod Prelude
pub mod Float
pub mod Control
pub mod Server
pub mod Aeb
pub mod Perception
pub mod Agent
pub mod Bridge
pub mod Rover
