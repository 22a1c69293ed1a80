-- ===== src/Aeb/Node.antt =====
-- The emergency-braking node (safety_controller_layer/aeb_node.py): its callbacks, each a step on
-- the node's state. `time.monotonic()` is the argument `now`.
pub mod Safety
pub mod Relay
pub mod Main
use rover_mind.Prelude.{
  ◌≡◌, ◌⊎◌, Bool, true, false, ◌||◌, Option, none, some, List, [], ◌∷◌, ◌++◌, if◌then◌else◌,
}
use rover_mind.Float.{Float, nought}
use rover_mind.Aeb.{AebParams, Brake, Scan, released, update, gate_twist, min_forward_range}

-- The fields `linear.x` and `angular.z` of a `Twist` message; the node leaves the others at 0.
pub record Twist (R : Type 0) : Type 0 where
  pub linear_x : R
  pub angular_z : R

pub record EmergencyBrake (R : Type 0) : Type 0 where
  pub state : Brake R
  pub latest_scan : Option (Scan R)
  pub scan_stamp : R
  pub latest_cmd : Option (Twist R)
  pub cmd_stamp : R
  pub was_braking : Bool

-- What a tick writes to the log.
pub data Notice : Type 0 where
  engaged let_go : Notice

pub record Ticked (R : Type 0) : Type 0 where
  pub node : EmergencyBrake R
  pub published : Twist R
  pub logged : Option Notice

pub data Event (R : Type 0) : Type 0 where
  scan : Scan R → Event R
  cmd : Twist R → Event R
  tick : Event R

-- The log line at a change of the brake.
notice : Bool → Bool → Option Notice
notice true false = some engaged
notice false true = some let_go
notice _ _ = none

module _ {R : Type 0} ⦃f : Float R⦄ where
  open f use {lt, lit, sub, quot, radians}

  abbrev pub init : EmergencyBrake R
  init = record {
    state = released;
    latest_scan = none;
    scan_stamp = nought;
    latest_cmd = none;
    cmd_stamp = nought;
    was_braking = false;
  }

  abbrev pub arc_half_width_rad : AebParams R → R
  arc_half_width_rad p = radians (quot p.forward_arc_deg (lit 20 1))

  unfoldable pub on_scan : EmergencyBrake R → Scan R → R → EmergencyBrake R
  on_scan n msg now = record n { latest_scan = some msg; scan_stamp = now }

  unfoldable pub on_cmd : EmergencyBrake R → Twist R → R → EmergencyBrake R
  on_cmd n msg now = record n { latest_cmd = some msg; cmd_stamp = now }

  -- The obstacle distance of a tick: 0.0 where the scan is missing or stale.
  unfoldable pub seen_range : AebParams R → Option (Scan R) → R → R → R
  seen_range p none stamp now = nought
  seen_range p (some s) stamp now =
      if lt p.scan_timeout_s (sub now stamp)
      then nought
      else min_forward_range s (arc_half_width_rad p)

  -- The raw command of a tick: zero where it is missing or stale.
  unfoldable pub raw_command : AebParams R → Option (Twist R) → R → R → R × R
  raw_command p none stamp now = (nought, nought)
  raw_command p (some c) stamp now =
      if lt p.command_timeout_s (sub now stamp) then (nought, nought) else (c.linear_x, c.angular_z)

  unfoldable pub on_tick : AebParams R → EmergencyBrake R → R → Ticked R
  unfolding notice seen_range raw_command
  on_tick p n now =
      let min_range = seen_range p n.latest_scan n.scan_stamp now in
      let state = update p n.state min_range now in
      let braking = state.braking in
      let (raw_linear, raw_angular) = raw_command p n.latest_cmd n.cmd_stamp now in
      let (linear, angular) = gate_twist raw_linear raw_angular braking in
      record {
        node = record n { state = state; was_braking = braking };
        published = record { linear_x = linear; angular_z = angular };
        logged = notice braking n.was_braking;
      }

  -- One callback at a time: the state after it, and what it published on /cmd_vel.
  unfoldable pub step :
      AebParams R → EmergencyBrake R → Event R × R → EmergencyBrake R × List (Twist R)
  unfolding on_scan on_cmd on_tick
  step p n (scan msg, now) = (on_scan n msg now, [])
  step p n (cmd msg, now) = (on_cmd n msg now, [])
  step p n (tick, now) = let t = on_tick p n now in (t.node, t.published ∷ [])

  -- The node spun over a sequence of callbacks, and all that it published.
  unfoldable pub spin :
      AebParams R → EmergencyBrake R → List (Event R × R) → EmergencyBrake R × List (Twist R)
  unfolding step
  spin p n [] = (n, [])
  spin p n (e ∷ es) =
      let (n', out) = step p n e in let (last, outs) = spin p n' es in (last, out ++ outs)
